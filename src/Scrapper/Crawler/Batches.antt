-- ===== src/Scrapper/Crawler/Batches.antt =====
-- The order of the links by their time, and the part of it that is behind a pointer: GetLinksBatch of
-- internal/scrapper/infrastructure/repository/sql/link_repo.go.
use linktracker_eng.Prelude.{
  ℕ, zero, suc, ◌<◌, ◌≤◌, ◌≡◌, refl, ap, ◌∙◌, Bool, true, false, ◌||◌, List, [], ◌∷◌, ◌++◌, Option,
  none, some, ltb, ◌==◌, keep, any_of, sort, insert_sorted, take, length, All, All-imp, All-keep,
  Distinct, sym, arith, Bool-cases, inl, inr, sort-keep, All-sort, All-insert_sorted, Result, ok,
  err,
}
use mathlib.Core.Path.{subst}
use mathlib.Core.List.{append-nil, append_assoc, filter_map}
use linktracker_eng.Scrapper.Link.{TrackedLink}
use linktracker_eng.Scrapper.Errors.{Sentinel}
use linktracker_eng.Scrapper.Tables.{LinkRow}
use linktracker_eng.Scrapper.Repo.Links
use linktracker_eng.Scrapper.Repo.Links.{before, after_pointer, collect_links}

abbrev pub same_time : LinkRow → LinkRow → Bool
same_time a b = a.created_at == b.created_at

-- Each row is earlier than all behind it.
abbrev pub Ascending : List LinkRow → Type 0
Ascending [] = Unit
Ascending (r ∷ rs) = All (λ x. r.created_at < x.created_at) rs × Ascending rs

any_of-All :
    (r : LinkRow) (rows : List LinkRow)
    → any_of (same_time r) rows ≡ false
    → All (λ x. ltb r.created_at x.created_at || ltb x.created_at r.created_at ≡ true) rows
unfolding any_of
any_of-All r [] h = tt
any_of-All r (x ∷ rows) h = (ground arith, any_of-All r rows (ground arith))

insert_sorted-Ascending :
    (r : LinkRow) (rows : List LinkRow)
    → All (λ x. ltb r.created_at x.created_at || ltb x.created_at r.created_at ≡ true) rows
    → Ascending rows
    → Ascending (insert_sorted before r rows)
unfolding insert_sorted
insert_sorted-Ascending r [] d a = (tt, tt)
insert_sorted-Ascending r (x ∷ rows) d a = elim (Bool-cases (before x r)) [
  | inl e ↦ rw e (
    All-insert_sorted before (λ y. x.created_at < y.created_at) r rows (ground (arith, d.0)) a.0,
    insert_sorted-Ascending r rows d.1 a.1,
  )
  | inr e ↦
      (let earlier : r.created_at < x.created_at = ground (arith, d.0) in
        rw e ((earlier, All-imp _ _ rows (λ y h. omega arith) a.0), a))
]

sort-Ascending : (rows : List LinkRow) → Distinct same_time rows → Ascending (sort before rows)
unfolding sort
sort-Ascending [] d = tt
sort-Ascending (r ∷ rows) d =
    insert_sorted-Ascending r (sort before rows) (All-sort before _ rows (any_of-All r rows d.0))
      (sort-Ascending rows d.1)

-- The rows behind a pointer, in their order.
abbrev pub rest_of : List LinkRow → Option ℕ → List LinkRow
rest_of rows pointer = sort before (keep (after_pointer pointer) rows)

abbrev pub drop : ℕ → List LinkRow → List LinkRow
drop zero rows = rows
drop (suc n) [] = []
drop (suc n) (r ∷ rows) = drop n rows

after_pointer-up :
    (pointer : Option ℕ) (x y : LinkRow)
    → before y x ≡ false
    → after_pointer pointer x ≡ true
    → after_pointer pointer y ≡ true
after_pointer-up none x y h k = refl
after_pointer-up (some p) x y h k = ground arith

abbrev pub last_time : Option ℕ → List LinkRow → Option ℕ
last_time t [] = t
last_time t (r ∷ rows) = last_time (some r.created_at) rows

keep_later :
    (t : ℕ) (rows : List LinkRow)
    → All (λ x. t < x.created_at) rows
    → keep (after_pointer (some t)) rows ≡ rows
unfolding keep
keep_later t [] a = refl
keep_later t (r ∷ rows) a = ground (arith, keep_later t rows a.1, a.0)

-- Behind the last one of the first rows are the other rows.
keep_rest :
    (n : ℕ) (r : LinkRow) (rows : List LinkRow) (p : ℕ)
    → Ascending (r ∷ rows)
    → last_time (some r.created_at) (take n rows) ≡ some p
    → (r.created_at ≤ p) × (keep (after_pointer (some p)) (r ∷ rows) ≡ drop n rows)
unfolding keep
keep_rest zero r rows p a h = (ground arith, ground (arith, keep_later r.created_at rows a.0))
keep_rest (suc n) r [] p a h = (ground arith, ground arith)
keep_rest (suc n) r (x ∷ rows) p a h =
    let (le, e) = keep_rest n x rows p a.1 h in (omega (arith, a.0.0), ground (arith, a.0.0, le, e))

keep-keep :
    (p q : LinkRow → Bool) (rows : List LinkRow)
    → ((x : LinkRow) → q x ≡ true → p x ≡ true)
    → keep q (keep p rows) ≡ keep q rows
unfolding keep
keep-keep p q [] f = refl
keep-keep p q (r ∷ rows) f = ground (arith, f r, keep-keep p q rows f)

All-kept : (p : LinkRow → Bool) (rows : List LinkRow) → All (λ x. p x ≡ true) (keep p rows)
unfolding keep
All-kept p [] = tt
All-kept p (r ∷ rows) = elim (Bool-cases (p r)) [
  | inl e ↦ rw e (e, All-kept p rows)
  | inr e ↦ rw e (All-kept p rows)
]

Ascending-keep :
    (p : LinkRow → Bool) (rows : List LinkRow) → Ascending rows → Ascending (keep p rows)
unfolding keep
Ascending-keep p [] a = tt
Ascending-keep p (r ∷ rows) a = elim (Bool-cases (p r)) [
  | inl e ↦ rw e (All-keep _ p rows a.0, Ascending-keep p rows a.1)
  | inr e ↦ rw e (Ascending-keep p rows a.1)
]

below_pointer :
    (pointer : Option ℕ) (p : ℕ) (x : LinkRow) (r : LinkRow)
    → after_pointer pointer r ≡ true
    → r.created_at ≤ p
    → after_pointer (some p) x ≡ true
    → after_pointer pointer x ≡ true
below_pointer none p x r h le k = refl
below_pointer (some q) p x r h le k = ground arith

module _ (rows : List LinkRow) (d : Distinct same_time rows) where
  rest_of_lem :
      (pointer : Option ℕ) → rest_of rows pointer ≡ keep (after_pointer pointer) (sort before rows)
  rest_of_lem pointer = sort-keep before (after_pointer pointer) (after_pointer-up pointer) rows

  pub rest_of_next :
      (pointer : Option ℕ) (n : ℕ) (r : LinkRow) (more : List LinkRow) (p : ℕ)
      → rest_of rows pointer ≡ r ∷ more
      → last_time (some r.created_at) (take n more) ≡ some p
      → rest_of rows (some p) ≡ drop n more
  rest_of_next pointer n r more p e h =
      let found = sym (rest_of_lem pointer) ∙ e in
      let ascending : Ascending (r ∷ more) =
        subst Ascending found
          (Ascending-keep (after_pointer pointer) (sort before rows) (sort-Ascending rows d)) in
      let behind : All (λ x. after_pointer pointer x ≡ true) (r ∷ more) =
        subst (All (λ x. after_pointer pointer x ≡ true)) found
          (All-kept (after_pointer pointer) (sort before rows)) in
      let (le, rest) = keep_rest n r more p ascending h in
      rest_of_lem (some p)
      ∙ sym (
          keep-keep (after_pointer pointer) (after_pointer (some p)) (sort before rows)
            (λ x k. below_pointer pointer p x r behind.0 le k))
      ∙ ap (keep (after_pointer (some p))) found
      ∙ rest

-- The link that a row is, and those of rows that are links.
abbrev pub linked : Result Sentinel TrackedLink → Option TrackedLink
linked (ok l) = some l
linked (err e) = none

unfoldable pub links_of : List LinkRow → List TrackedLink
links_of = filter_map (λ r. linked (Links.row_link r))

abbrev pub IsLink : LinkRow → Type 0
IsLink r = (l : TrackedLink) × (Links.row_link r ≡ ok l)

pub collect_links_lem :
    (rows : List LinkRow) (acc : List TrackedLink) (t : Option ℕ)
    → All IsLink rows
    → collect_links rows (acc, t) ≡ (acc ++ links_of rows, last_time t rows)
unfolding collect_links links_of filter_map
collect_links_lem [] acc t a = rw append-nil refl
collect_links_lem (r ∷ rows) acc t a =
    let (l, e) = a.0 in
    rw e (collect_links_lem rows (acc ++ l ∷ []) (some r.created_at) a.1 ∙ rw append_assoc refl)

pub length-links_of : (rows : List LinkRow) → All IsLink rows → length (links_of rows) ≡ length rows
unfolding links_of filter_map
length-links_of [] a = refl
length-links_of (r ∷ rows) a = let (l, e) = a.0 in rw e (ap suc (length-links_of rows a.1))
