-- ===== src/Db.antt =====
-- internal/infrastructure/repository/transactor.go over a PostgreSQL session. A statement may fail
-- (the script `faults` says which), and an error inside a transaction leaves it aborted: each
-- later statement and the commit fail, as PostgreSQL documents. `now` is what NOW() returns.
pub mod Laws
pub mod Keeps
pub mod Quiet
pub mod Calm
use linktracker_eng.Prelude.{
  ℕ, Bool, true, false, ◌||◌, List, [], ◌∷◌, Error, fault, Result, ok, err, db_failure, tx_aborted,
  if◌then◌else◌,
}
use linktracker_eng.Exec.{Exec}

pub record Session {ℓ} (T : Type ℓ) : Type ℓ where
  pub tables : T
  pub in_tx : Bool
  pub aborted : Bool
  pub faults : List Bool
  pub now : ℕ

-- Whether the next statement fails, and the script behind it.
abbrev pub failing : List Bool → Bool
failing [] = false
failing (b ∷ bs) = b

abbrev pub later : List Bool → List Bool
later [] = []
later (b ∷ bs) = bs

module _ {ℓ} {T : Type ℓ} where
  abbrev pub rolled_back : T → Session T → Session T
  rolled_back t s = record s { tables = t; in_tx = false; aborted = false; faults = later s.faults }

  abbrev pub committed : Session T → Session T
  committed s = record s { in_tx = false; aborted = false; faults = later s.faults }

  abbrev pub begun : Session T → Session T
  begun s = record s { in_tx = true; aborted = false; faults = later s.faults }

module _ {ℓ} {E T A : Type ℓ} where
  abbrev pub settle : Result E (A × T) → Session T → Result E A × Session T
  settle (ok (a, t)) s = (ok a, record s { tables = t })
  settle (err e) s = (err e, record s { aborted = s.in_tx })

  -- One statement, sent through `GetQuerier`: the transaction's, if the context holds one.
  unfoldable pub statement : (ℕ → T → Result E (A × T)) → Exec E (Session T) A
  statement f s =
      if s.aborted
      then (err (fault tx_aborted), s)
      else if failing s.faults
      then (err (fault db_failure), record s { aborted = s.in_tx; faults = later s.faults })
      else settle (f s.now s.tables) (record s { faults = later s.faults })

  -- Commit, or the deferred Rollback, whose own error does not reach the caller.
  abbrev pub end_tx : T → Result E A → Session T → Result E A × Session T
  end_tx t (err e) s = (err e, rolled_back t s)
  end_tx t (ok a) s =
      if s.aborted
      then (err (fault tx_aborted), rolled_back t s)
      else if failing s.faults
      then (err (fault db_failure), rolled_back t s)
      else (ok a, committed s)

  -- WithTransaction on a chain that has a pool
  unfoldable pub with_transaction : Exec E (Session T) A → Exec E (Session T) A
  with_transaction body s =
      if failing s.faults
      then (err (fault db_failure), record s { faults = later s.faults })
      else (let (r, s') = body (begun s) in end_tx s.tables r s')
