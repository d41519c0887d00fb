-- ===== src/Prelude/NoRepeats.antt =====
-- Tests over lists, and lists without two items that are the same by a test.
use mathlib.Core.Path.{◌≡◌, refl}
use mathlib.Core.Logic.{inl, inr}
use mathlib.Core.Bool.{Bool, false, ◌||◌}
use mathlib.Core.List.{List, [], ◌∷◌, ◌++◌, map}
use native.Mathlib.Omega.{arith}
use linktracker_eng.Prelude.Tests.{Bool-cases}
use linktracker_eng.Prelude.Lists.{any_of, keep, All}

module _ {ℓ} {A : Type ℓ} where
  abbrev pub Distinct : (A → A → Bool) → List A → Type 0
  Distinct same [] = Unit
  Distinct same (x ∷ xs) = (any_of (same x) xs ≡ false) × Distinct same xs

  pub any_of-append :
      (p : A → Bool) (xs ys : List A) → any_of p (xs ++ ys) ≡ (any_of p xs || any_of p ys)
  unfolding any_of
  any_of-append p [] ys = refl
  any_of-append p (x ∷ xs) ys = ground (arith, any_of-append p xs ys)

  pub any_of-snoc :
      (p : A → Bool) (xs : List A) (y : A) → any_of p (xs ++ y ∷ []) ≡ (any_of p xs || p y)
  unfolding any_of
  any_of-snoc p [] y = ground arith
  any_of-snoc p (x ∷ xs) y = ground (arith, any_of-snoc p xs y)

  pub any_of-keep :
      (p q : A → Bool) (xs : List A) → any_of p xs ≡ false → any_of p (keep q xs) ≡ false
  unfolding any_of keep
  any_of-keep p q [] h = refl
  any_of-keep p q (x ∷ xs) h = ground (arith, any_of-keep p q xs)

  pub Distinct-snoc :
      (same : A → A → Bool) (xs : List A) (y : A)
      → Distinct same xs
      → any_of (λ x. same x y) xs ≡ false
      → Distinct same (xs ++ y ∷ [])
  unfolding any_of
  Distinct-snoc same [] y d h = (refl, tt)
  Distinct-snoc same (x ∷ xs) y d h =
      (ground (arith, any_of-snoc (same x) xs y), Distinct-snoc same xs y d.1 (ground arith))

  pub Distinct-keep :
      (same : A → A → Bool) (q : A → Bool) (xs : List A)
      → Distinct same xs
      → Distinct same (keep q xs)
  unfolding keep
  Distinct-keep same q [] d = tt
  Distinct-keep same q (x ∷ xs) d = elim (Bool-cases (q x)) [
    | inl e ↦ rw e (any_of-keep (same x) q xs d.0, Distinct-keep same q xs d.1)
    | inr e ↦ rw e (Distinct-keep same q xs d.1)
  ]

  pub any_of-map :
      (p : A → Bool) (f : A → A) (xs : List A)
      → ((x : A) → p (f x) ≡ p x)
      → any_of p (map f xs) ≡ any_of p xs
  unfolding any_of
  any_of-map p f [] h = refl
  any_of-map p f (x ∷ xs) h = ground (arith, h x, any_of-map p f xs h)

  pub Distinct-map :
      (same : A → A → Bool) (f : A → A) (xs : List A)
      → ((x y : A) → same (f x) (f y) ≡ same x y)
      → Distinct same xs
      → Distinct same (map f xs)
  unfolding any_of
  Distinct-map same f [] h d = tt
  Distinct-map same f (x ∷ xs) h d =
      (any_of_images (same (f x)) (same x) xs (h x) d.0, Distinct-map same f xs h d.1)
    where
      any_of_images :
          (p q : A → Bool) (ys : List A)
          → ((y : A) → p (f y) ≡ q y)
          → any_of q ys ≡ false
          → any_of p (map f ys) ≡ false
      any_of_images p q [] k e = refl
      any_of_images p q (y ∷ ys) k e = ground (arith, k y, any_of_images p q ys k)

  pub All-keep {κ} : (P : A → Type κ) (q : A → Bool) (xs : List A) → All P xs → All P (keep q xs)
  unfolding keep
  All-keep P q [] h = tt
  All-keep P q (x ∷ xs) h = elim (Bool-cases (q x)) [
    | inl e ↦ rw e (h.0, All-keep P q xs h.1)
    | inr e ↦ rw e (All-keep P q xs h.1)
  ]

  pub All-imp {κ} : (P Q : A → Type κ) (xs : List A) → ((x : A) → P x → Q x) → All P xs → All Q xs
  All-imp P Q [] f h = tt
  All-imp P Q (x ∷ xs) f h = (f x h.0, All-imp P Q xs f h.1)

  pub All-map {κ} :
      (P : A → Type κ) (f : A → A) (xs : List A)
      → ((x : A) → P x → P (f x))
      → All P xs
      → All P (map f xs)
  All-map P f [] g h = tt
  All-map P f (x ∷ xs) g h = (g x h.0, All-map P f xs g h.1)

  pub keep-append : (p : A → Bool) (xs ys : List A) → keep p (xs ++ ys) ≡ keep p xs ++ keep p ys
  unfolding keep
  keep-append p [] ys = refl
  keep-append p (x ∷ xs) ys = ground (arith, keep-append p xs ys)
