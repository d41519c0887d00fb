-- ===== src/Exec/Steps.antt =====
-- Running a chain step by step: what a bind does once its first part is known.
use linktracker_eng.Prelude.{◌≡◌, ap, Error, Result, ok, err}
use linktracker_eng.Exec.{Exec, or_return, attempt, continue, map_error, ◌>>=◌}

module _ {ℓ} {E S A B : Type ℓ} where
  pub bind_ok :
      (m : Exec E S A) (f : A → Exec E S B) {s s' : S} {a : A}
      → m s ≡ (ok a, s')
      → (m >>= f) s ≡ f a s'
  unfolding ◌>>=◌
  bind_ok m f h = ap (λ (p : Result E A × S). continue p.0 f p.1) h

  pub bind_err :
      (m : Exec E S A) (f : A → Exec E S B) {s s' : S} {e : Error E}
      → m s ≡ (err e, s')
      → (m >>= f) s ≡ (err e, s')
  unfolding ◌>>=◌
  bind_err m f h = ap (λ (p : Result E A × S). continue p.0 f p.1) h

module _ {ℓ} {E S A : Type ℓ} where
  pub or_return_ok :
      (m : Exec E S A) (f : Error E → Error E) {s s' : S} {a : A}
      → m s ≡ (ok a, s')
      → or_return m f s ≡ (ok a, s')
  unfolding or_return
  or_return_ok m f h = ap (λ (p : Result E A × S). (map_error f p.0, p.1)) h

  pub or_return_err :
      (m : Exec E S A) (f : Error E → Error E) {s s' : S} {e : Error E}
      → m s ≡ (err e, s')
      → or_return m f s ≡ (err (f e), s')
  unfolding or_return
  or_return_err m f h = ap (λ (p : Result E A × S). (map_error f p.0, p.1)) h

  pub attempt_lem :
      (m : Exec E S A) {s s' : S} {r : Result E A} → m s ≡ (r, s') → attempt m s ≡ (ok r, s')
  unfolding attempt
  attempt_lem m h = ap (λ (p : Result E A × S). (ok p.0, p.1)) h
