-- ===== src/Exec.antt =====
-- Go functions that change a store and return an error. What was written before an error stays
-- written, so the store comes back beside the error too.
pub mod Keeps
pub mod Steps
use linktracker_eng.Prelude.{Error, Result, ok, err}

abbrev pub Exec {ℓ} : Type ℓ → Type ℓ → Type ℓ → Type ℓ
Exec E S A = S → Result E A × S

module _ {ℓ} {E A : Type ℓ} where
  abbrev pub map_error : (Error E → Error E) → Result E A → Result E A
  map_error f (ok a) = ok a
  map_error f (err e) = err (f e)

module _ {ℓ} {E S A : Type ℓ} where
  unfoldable pub pure : A → Exec E S A
  pure a s = (ok a, s)

  unfoldable pub raise : Error E → Exec E S A
  raise e s = (err e, s)

  unfoldable pub lift : Result E A → Exec E S A
  lift r s = (r, s)

  -- if err := m; err != nil { return f(err) }
  unfoldable pub or_return : Exec E S A → (Error E → Error E) → Exec E S A
  or_return m f s = let (r, s') = m s in (map_error f r, s')

  -- x, err := m, with the error left to the caller's code
  unfoldable pub attempt : Exec E S A → Exec E S (Result E A)
  attempt m s = let (r, s') = m s in (ok r, s')

module _ {ℓ} {E S A B : Type ℓ} where
  abbrev pub continue : Result E A → (A → Exec E S B) → Exec E S B
  continue (ok a) f s = f a s
  continue (err e) f s = (err e, s)

  infixl 10 ◌>>=◌ ◌>>◌
  -- to open it is to open all of the above
  unfoldable pub ◌>>=◌ : Exec E S A → (A → Exec E S B) → Exec E S B
  unfolding pure raise lift or_return attempt
  ◌>>=◌ m f s = let (r, s') = m s in continue r f s'

  abbrev pub ◌>>◌ : Exec E S A → Exec E S B → Exec E S B
  m >> n = m >>= λ _. n
