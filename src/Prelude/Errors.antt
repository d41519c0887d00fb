-- ===== src/Prelude/Errors.antt =====
-- Go errors as values: sentinels, `fmt.Errorf("op: %w", err)`, `errors.Join` and `errors.Is`.
use Prim.Native.String.{String}
use mathlib.Core.Path.{◌≡◌, refl}
use mathlib.Core.Logic.{◌⊎◌, inl, inr}
use mathlib.Core.Bool.{Bool, false, ◌||◌, true}

-- Errors that come from outside the program: the database driver, the standard library, and
-- the run time (a panic, which unwinds like an error).
pub data Fault : Type 0 where
  db_failure tx_aborted unique_violation foreign_key_violation no_rows bad_url cache_failure : Fault
  crawl_failure send_failure read_failure run_time_panic argument_count : Fault

-- The sentinels `E` are those that the component declares.
pub data Error {ℓ} (E : Type ℓ) : Type ℓ where
  sentinel : E → Error E
  fault : Fault → Error E
  wrap : String → Error E → Error E
  join : Error E → Error E → Error E

pub data Result {ℓ κ} (E : Type ℓ) (A : Type κ) : Type (ℓ ⊔ κ) where
  ok : A → Result E A
  err : Error E → Result E A

-- errors.Is(err, target), given the equality of the sentinels
unfoldable pub is_error {ℓ} : {E : Type ℓ} → (E → E → Bool) → Error E → E → Bool
is_error same (sentinel e) t = same e t
is_error same (fault f) t = false
is_error same (wrap op e) t = is_error same e t
is_error same (join a b) t = is_error same a t || is_error same b t

-- errors.AsType[*pgconn.PgError](err) with the code 23505
unfoldable pub is_unique_violation {ℓ} : {E : Type ℓ} → Error E → Bool
is_unique_violation (sentinel e) = false
is_unique_violation (fault unique_violation) = true
is_unique_violation (fault f) = false
is_unique_violation (wrap op e) = is_unique_violation e
is_unique_violation (join a b) = is_unique_violation a || is_unique_violation b

pub Result-cases {ℓ κ} :
    {E : Type ℓ} {A : Type κ} (r : Result E A)
    → ((a : A) × (r ≡ ok a)) ⊎ ((e : Error E) × (r ≡ err e))
Result-cases (ok a) = inl (a, refl)
Result-cases (err e) = inr (e, refl)
