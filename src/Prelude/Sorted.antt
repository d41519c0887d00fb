-- ===== src/Prelude/Sorted.antt =====
-- What sorting keeps: the items, what they satisfy, and the part that passes an upward test.
use Prim.Native.Nat.{suc}
use mathlib.Core.Path.{◌≡◌, refl, ap, ◌∙◌}
use mathlib.Core.Logic.{inl, inr}
use mathlib.Core.Bool.{Bool, true, false}
use mathlib.Core.List.{List, [], ◌∷◌, Perm}
use mathlib.Core.List.Perm
use native.Mathlib.Omega.{arith}
use linktracker_eng.Prelude.Tests.{Bool-cases, if◌then◌else◌}
use linktracker_eng.Prelude.Lists.{length, keep, All}
use linktracker_eng.Prelude.Sorting.{sort, insert_sorted}

module _ {ℓ} {A : Type ℓ} (before : A → A → Bool) where
  insert_sorted-Perm : (x : A) (ys : List A) → Perm (insert_sorted before x ys) (x ∷ ys)
  unfolding insert_sorted
  insert_sorted-Perm x [] = Perm.refl (x ∷ [])
  insert_sorted-Perm x (y ∷ ys) = elim (Bool-cases (before y x)) [
    | inl e ↦ rw e (Perm.trans (Perm.cons y (insert_sorted-Perm x ys)) (Perm.swap x y ys))
    | inr e ↦ rw e (Perm.refl (x ∷ y ∷ ys))
  ]

  pub sort-Perm : (xs : List A) → Perm (sort before xs) xs
  unfolding sort
  sort-Perm [] = Perm.refl []
  sort-Perm (x ∷ xs) =
      Perm.trans (insert_sorted-Perm x (sort before xs)) (Perm.cons x (sort-Perm xs))

  pub All-insert_sorted {κ} :
      (P : A → Type κ) (x : A) (ys : List A) → P x → All P ys → All P (insert_sorted before x ys)
  unfolding insert_sorted
  All-insert_sorted P x [] h a = (h, tt)
  All-insert_sorted P x (y ∷ ys) h a = elim (Bool-cases (before y x)) [
    | inl e ↦ rw e (a.0, All-insert_sorted P x ys h a.1)
    | inr e ↦ rw e (h, a)
  ]

  pub All-sort {κ} : (P : A → Type κ) (xs : List A) → All P xs → All P (sort before xs)
  unfolding sort
  All-sort P [] a = tt
  All-sort P (x ∷ xs) a = All-insert_sorted P x (sort before xs) a.0 (All-sort P xs a.1)

  length-insert_sorted :
      (x : A) (ys : List A) → length (insert_sorted before x ys) ≡ suc (length ys)
  unfolding insert_sorted
  length-insert_sorted x [] = refl
  length-insert_sorted x (y ∷ ys) = ground (arith, length-insert_sorted x ys)

  pub length-sort : (xs : List A) → length (sort before xs) ≡ length xs
  unfolding sort
  length-sort [] = refl
  length-sort (x ∷ xs) = omega (arith, length-insert_sorted x (sort before xs), length-sort xs)

  module _ (p : A → Bool) (up : (x y : A) → before y x ≡ false → p x ≡ true → p y ≡ true) where
    keep-insert_sorted_hit :
        (x : A) (ys : List A)
        → p x ≡ true
        → keep p (insert_sorted before x ys) ≡ insert_sorted before x (keep p ys)
    unfolding insert_sorted keep
    keep-insert_sorted_hit x [] h = rw h refl
    keep-insert_sorted_hit x (y ∷ ys) h = elim (Bool-cases (before y x)) [
      | inr e ↦ rw (e, h, up x y e h, e) refl
      | inl e ↦ elim (Bool-cases (p y)) [
        | inl q ↦ rw (e, q, e) (ap (λ l. y ∷ l) (keep-insert_sorted_hit x ys h))
        | inr q ↦ rw (e, q) (keep-insert_sorted_hit x ys h)
      ]
    ]

    keep-insert_sorted_miss :
        (x : A) (ys : List A) → p x ≡ false → keep p (insert_sorted before x ys) ≡ keep p ys
    unfolding insert_sorted keep
    keep-insert_sorted_miss x [] h = rw h refl
    keep-insert_sorted_miss x (y ∷ ys) h = elim (Bool-cases (before y x)) [
      | inl e ↦ rw e (ap (λ l. if p y then y ∷ l else l) (keep-insert_sorted_miss x ys h))
      | inr e ↦ rw (e, h) refl
    ]

    pub sort-keep : (xs : List A) → sort before (keep p xs) ≡ keep p (sort before xs)
    unfolding sort keep
    sort-keep [] = refl
    sort-keep (x ∷ xs) = elim (Bool-cases (p x)) [
      | inl e ↦ rw e (
          ap (insert_sorted before x) (sort-keep xs)
          ∙ (rw (keep-insert_sorted_hit x (sort before xs) e) refl))
      | inr e ↦ rw e (sort-keep xs ∙ (rw (keep-insert_sorted_miss x (sort before xs) e) refl))
    ]
