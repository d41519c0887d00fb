-- ===== src/Prelude/Rearranged.antt =====
-- Lists in another order. `Perm` forgets which rearrangement it was.
use mathlib.Core.Path.{◌≡◌, refl, ◌∙◌, sym}
use mathlib.Core.Bool.{Bool, false, Bool-set, ◌||◌}
use mathlib.Core.List.{List, [], ◌∷◌, foldr, Perm}
use mathlib.Core.List.Perm
use native.Mathlib.Omega.{arith}
use linktracker_eng.Prelude.Lists.{any_of}

module _ {ℓ} {A : Type ℓ} where
  any_of-foldr : (p : A → Bool) (xs : List A) → any_of p xs ≡ foldr (λ x b. p x || b) false xs
  unfolding any_of
  any_of-foldr p [] = refl
  any_of-foldr p (x ∷ xs) = ground (arith, any_of-foldr p xs)

  pub any_of-Perm : (p : A → Bool) {xs ys : List A} → Perm xs ys → any_of p xs ≡ any_of p ys
  any_of-Perm p {xs} {ys} d =
      any_of-foldr p xs
      ∙ Perm.foldr-eq Bool-set (λ x b. p x || b) (λ x y b. ground arith) d false
      ∙ sym (any_of-foldr p ys)
