-- ===== src/Exec/Keeps.antt =====
-- Invariants of store operations: one rule for each way to build one. The operation keeps the
-- invariant whether it returns a value or an error.
use linktracker_eng.Prelude.{Bool, true, false, if◌then◌else◌, Error, Result, ok, err}
use linktracker_eng.Exec.{Exec, pure, raise, lift, or_return, attempt, ◌>>=◌}

pub record Keeps {ℓ} {E S A : Type ℓ} (P : S → Type ℓ) (body : Exec E S A) : Type ℓ where
  pub kept : (s : S) → P s → P (body s).1

module _ {ℓ} {E S A : Type ℓ} {P : S → Type ℓ} where
  pub Keeps-raise : (e : Error E) → Keeps P (raise {A = A} e)
  unfolding raise
  Keeps-raise e = record { kept = λ s p. p }

  pub Keeps-pure : (a : A) → Keeps P (pure {E = E} a)
  unfolding pure
  Keeps-pure a = record { kept = λ s p. p }

  pub Keeps-lift : (r : Result E A) → Keeps P (lift r)
  unfolding lift
  Keeps-lift r = record { kept = λ s p. p }

  pub Keeps-or_return :
      (f : Error E → Error E) (m : Exec E S A) → Keeps P m → Keeps P (or_return m f)
  unfolding or_return
  Keeps-or_return f m k = record { kept = k.kept }

  pub Keeps-attempt : (m : Exec E S A) → Keeps P m → Keeps P (attempt m)
  unfolding attempt
  Keeps-attempt m k = record { kept = k.kept }

  pub Keeps-if :
      (c : Bool) (then_m else_m : Exec E S A)
      → Keeps P then_m
      → Keeps P else_m
      → Keeps P (if c then then_m else else_m)
  Keeps-if false then_m else_m ky kn = kn
  Keeps-if true then_m else_m ky kn = ky

module _ {ℓ} {E S A B : Type ℓ} {P : S → Type ℓ} where
  Keeps-continue :
      (r : Result E A) (next : A → Exec E S B) (s : S)
      → P s
      → ((a : A) → Keeps P (next a))
      → P ((lift r >>= next) s).1
  unfolding ◌>>=◌
  Keeps-continue (err e) next s h ks = h
  Keeps-continue (ok a) next s h ks = (ks a).kept s h

  pub Keeps-bind :
      (first : Exec E S A) (next : A → Exec E S B)
      → Keeps P first
      → ((a : A) → Keeps P (next a))
      → Keeps P (first >>= next)
  unfolding ◌>>=◌
  Keeps-bind first next k ks = record {
    kept = λ s h. Keeps-continue (first s).0 next (first s).1 (k.kept s h) ks;
  }

pub ruleset keeps_rules =
    (Keeps-pure, Keeps-raise, Keeps-lift, Keeps-or_return, Keeps-attempt, Keeps-if, Keeps-bind)
