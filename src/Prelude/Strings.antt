-- ===== src/Prelude/Strings.antt =====
-- What the program uses of Go's packages `strings`, `path` and `unicode`, on texts.
use Prim.Native.Nat.{ℕ, zero, suc, ◌+◌, ◌<◌}
use mathlib.Core.Path.{◌≡◌}
use mathlib.Core.Bool.{Bool, true, false, ◌&&◌, ◌||◌}
use mathlib.Core.List.{List, [], ◌∷◌, ◌++◌, map, reverse}
use linktracker_eng.Prelude.Tests.{ltb, leb, ◌==◌, if◌then◌else◌}
use linktracker_eng.Prelude.GoText.{Text, codes, text_eq, rune_bound}

abbrev pub is_nil {ℓ} : {A : Type ℓ} → List A → Bool
is_nil [] = true
is_nil (x ∷ xs) = false

abbrev pub ascii_lower : ℕ → ℕ
ascii_lower c = if leb b'A' c && leb c b'Z' then c + 32 else c

-- The tables of the package `unicode`. The program's own words are ASCII, where they are known.
pub record Unicode : Type 0 where
  pub lower : ℕ → ℕ
  pub is_letter : ℕ → Bool
  pub is_digit : ℕ → Bool
  pub lower_ascii : (c : ℕ) → c < 128 → lower c ≡ ascii_lower c

abbrev pub replacement : ℕ
replacement = 0xfffd

abbrev pub lower_rune : Unicode → ℕ → ℕ
lower_rune u c = if ltb c rune_bound then u.lower c else replacement

-- strings.ToLower, which also replaces each stray byte
unfoldable pub to_lower : Unicode → Text → Text
to_lower u = map (lower_rune u)

-- unicode.IsSpace
unfoldable pub is_space : ℕ → Bool
is_space c =
    (leb 9 c && leb c 13)
    || c == 32
    || c == 0x85
    || c == 0xa0
    || c == 0x1680
    || (leb 0x2000 c && leb c 0x200a)
    || c == 0x2028
    || c == 0x2029
    || c == 0x202f
    || c == 0x205f
    || c == 0x3000

unfoldable pub trim_left : (ℕ → Bool) → Text → Text
trim_left p [] = []
trim_left p (c ∷ s) = if p c then trim_left p s else c ∷ s

unfoldable pub trim_right : (ℕ → Bool) → Text → Text
trim_right p [] = []
trim_right p (c ∷ s) = let r = trim_right p s in if is_nil r && p c then [] else c ∷ r

-- strings.TrimFunc, strings.Trim
unfoldable pub trim : (ℕ → Bool) → Text → Text
unfolding trim_left trim_right
trim p s = trim_left p (trim_right p s)

unfoldable pub trim_space : Text → Text
unfolding trim is_space
trim_space = trim is_space

abbrev pub cons_head : ℕ → List Text → List Text
cons_head c [] = (c ∷ []) ∷ []
cons_head c (x ∷ xs) = (c ∷ x) ∷ xs

-- strings.Split with a separator of one ASCII character
unfoldable pub split : ℕ → Text → List Text
split sep [] = [] ∷ []
split sep (c ∷ s) = let rest = split sep s in if c == sep then [] ∷ rest else cons_head c rest

-- strings.SplitN: at most `n` parts, the last one the unsplit rest
unfoldable pub split_n : ℕ → ℕ → Text → List Text
split_n zero sep s = []
split_n (suc zero) sep s = s ∷ []
split_n (suc (suc n)) sep [] = [] ∷ []
split_n (suc (suc n)) sep (c ∷ s) =
    let next = split_n (suc n) sep s in
    let more = cons_head c (split_n (suc (suc n)) sep s) in if c == sep then [] ∷ next else more

abbrev pub flush : Text → List Text → List Text
flush [] out = out
flush (c ∷ w) out = (c ∷ w) ∷ out

-- strings.FieldsFunc: the maximal runs of characters that are no separators
unfoldable pub fields_from : (ℕ → Bool) → Text → Text → List Text
fields_from p word [] = flush word []
fields_from p word (c ∷ s) =
    let out = flush word (fields_from p [] s) in
    let more = fields_from p (word ++ c ∷ []) s in if p c then out else more

unfoldable pub fields_func : (ℕ → Bool) → Text → List Text
unfolding fields_from
fields_func p s = fields_from p [] s

abbrev pub pop : List Text → List Text
pop [] = []
pop (p ∷ ps) = ps

abbrev pub push_part : List Text → Text → List Text
push_part stack [] = stack
push_part stack (c ∷ s) =
    if text_eq (c ∷ s) (codes ".")
    then stack
    else if text_eq (c ∷ s) (codes "..")
    then pop stack
    else (c ∷ s) ∷ stack

unfoldable pub clean_parts : List Text → List Text → List Text
clean_parts stack [] = reverse stack
clean_parts stack (p ∷ ps) = clean_parts (push_part stack p) ps

abbrev pub slashed : List Text → Text
slashed [] = []
slashed (p ∷ ps) = b'/' ∷ (p ++ slashed ps)

abbrev pub rooted : List Text → Text
rooted [] = codes "/"
rooted (p ∷ ps) = slashed (p ∷ ps)

-- path.Clean of a rooted path: no empty, `.` or `..` element is left
unfoldable pub path_clean : Text → Text
unfolding clean_parts split
path_clean s = rooted (clean_parts [] (split b'/' s))
