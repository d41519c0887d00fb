-- ===== src/Scrapper/Qb/TextArray.antt =====
-- toTextArrayLiteral of subs_repo.go, and how PostgreSQL reads the text of an array.
use linktracker_eng.Prelude.{
  ℕ, ◌≡◌, refl, Bool-cases, inl, inr, List, [], ◌∷◌, ◌++◌, map, Option, none, some, Text, ◌==◌,
  if◌then◌else◌, is_nil, cons_head, codes, ◌&&◌, ==_cases,
}
use mathlib.Core.List.{append_assoc}

-- strings.ReplaceAll of one character
unfoldable pub replace_all : ℕ → Text → Text → Text
replace_all old new [] = []
replace_all old new (c ∷ s) =
    let rest = replace_all old new s in if c == old then new ++ rest else c ∷ rest

abbrev pub quote : ℕ
quote = b'"'

abbrev pub backslash : ℕ
backslash = b'\\'

abbrev pub escaped_tag : Text → Text
escaped_tag tag =
    replace_all quote (backslash ∷ quote ∷ [])
      (replace_all backslash (backslash ∷ backslash ∷ []) tag)

abbrev pub quoted : Text → Text
quoted tag = quote ∷ (escaped_tag tag ++ quote ∷ [])

-- strings.Join(parts, ",")
abbrev pub joined : List Text → Text
joined [] = []
joined (p ∷ []) = p
joined (p ∷ q ∷ ps) = p ++ b',' ∷ joined (q ∷ ps)

-- toTextArrayLiteral
unfoldable pub to_text_array_literal : List Text → Text
unfolding replace_all
to_text_array_literal [] = codes "{}"
to_text_array_literal (tag ∷ tags) = b'{' ∷ (joined (map quoted (tag ∷ tags)) ++ b'}' ∷ [])

-- Where PostgreSQL's reader of a text[] stands.
pub data Scan : Type 0 where
  before_item in_item after_escape after_item : Scan

abbrev start_item : Option (List Text) → Option (List Text)
start_item none = none
start_item (some items) = some ([] ∷ items)

abbrev in_front : ℕ → Option (List Text) → Option (List Text)
in_front c none = none
in_front c (some items) = some (cons_head c items)

abbrev inside : ℕ → Scan
inside c = if c == quote then after_item else if c == backslash then after_escape else in_item

-- The items from a place on, the first one without what is before the place; none where the text is no
-- array of quoted items.
unfoldable pub scan_array : Scan → Text → Option (List Text)
scan_array m [] = none
scan_array before_item (c ∷ s) =
    let next = scan_array in_item s in if c == quote then next else none
scan_array in_item (c ∷ s) =
    let next = scan_array (inside c) s in
    if c == quote then start_item next else if c == backslash then next else in_front c next
scan_array after_escape (c ∷ s) = in_front c (scan_array in_item s)
scan_array after_item (c ∷ s) =
    let next = scan_array before_item s in
    if c == b',' then next else if c == b'}' && is_nil s then some [] else none

abbrev after_brace : Text → Option (List Text)
after_brace [] = none
after_brace (c ∷ s) = if c == b'}' && is_nil s then some [] else scan_array before_item (c ∷ s)

-- The cast of a text to text[]
unfoldable pub text_array : Text → Option (List Text)
unfolding scan_array
text_array [] = none
text_array (c ∷ s) = if c == b'{' then after_brace s else none

abbrev with_item : Text → Option (List Text) → Option (List Text)
with_item item none = none
with_item item (some items) = some (item ∷ items)

start_item_lem : (r : Option (List Text)) → start_item r ≡ with_item [] r
start_item_lem none = refl
start_item_lem (some items) = refl

in_front-with_item :
    (c : ℕ) (item : Text) (r : Option (List Text))
    → in_front c (with_item item r) ≡ with_item (c ∷ item) r
in_front-with_item c item none = refl
in_front-with_item c item (some items) = refl

abbrev escaped_rune : ℕ → Text
escaped_rune c =
    if c == backslash
    then backslash ∷ backslash ∷ []
    else if c == quote
    then backslash ∷ quote ∷ []
    else c ∷ []

escaped_cons : (c : ℕ) (tag : Text) → escaped_tag (c ∷ tag) ≡ escaped_rune c ++ escaped_tag tag
unfolding replace_all
escaped_cons c tag = elim (Bool-cases (c == backslash)) [
  | inl b ↦ rw b refl
  | inr b ↦ elim (Bool-cases (c == quote)) [ inl q ↦ rw (b, q) refl | inr q ↦ rw (b, q) refl ]
]

scan_rune :
    (c : ℕ) (s : Text)
    → scan_array in_item (escaped_rune c ++ s) ≡ in_front c (scan_array in_item s)
unfolding scan_array
scan_rune c s = elim (==_cases c backslash) [
  | inl (e, b) ↦ rw (b, e) refl
  | inr (ne, b) ↦ elim (==_cases c quote) [
    | inl (e, q) ↦ rw (b, q, e) refl
    | inr (nq, q) ↦ rw (b, q, b, q) refl
  ]
]

scan_item :
    (tag s : Text)
    → scan_array in_item (escaped_tag tag ++ quote ∷ s) ≡ with_item tag (scan_array after_item s)
unfolding scan_array replace_all
scan_item [] s = start_item_lem (scan_array after_item s)
scan_item (c ∷ tag) s =
    rw
      (
        escaped_cons c tag,
        append_assoc,
        scan_rune c (escaped_tag tag ++ quote ∷ s),
        scan_item tag s,
      )
      (in_front-with_item c tag _)

scan_joined :
    (tag : Text) (tags : List Text)
    → scan_array before_item (joined (map quoted (tag ∷ tags)) ++ b'}' ∷ []) ≡ some (tag ∷ tags)
unfolding scan_array replace_all
scan_joined tag [] = rw (append_assoc, scan_item tag (b'}' ∷ [])) refl
scan_joined tag (next ∷ tags) =
    rw (append_assoc, append_assoc, scan_item tag _, scan_joined next tags) refl

-- PostgreSQL reads back the tags that a literal was made of, whatever quotes, backslashes, commas and
-- braces they hold.
pub text_array-to_text_array_literal :
    (tags : List Text) → text_array (to_text_array_literal tags) ≡ some tags
unfolding text_array to_text_array_literal replace_all
text_array-to_text_array_literal [] = refl
text_array-to_text_array_literal (tag ∷ []) = scan_joined tag []
text_array-to_text_array_literal (tag ∷ next ∷ tags) = scan_joined tag (next ∷ tags)
