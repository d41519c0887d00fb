-- ===== src/Db/Laws.antt =====
-- What WithTransaction promises: all of the body's writes, or none.
use linktracker_eng.Prelude.{◌≡◌, Error, ok, err, arith}
use linktracker_eng.Exec.{Exec}
use linktracker_eng.Db.{Session, with_transaction, begun}

module _ {ℓ} {E T A : Type ℓ} where
  pub tables-with_transaction_err :
      (body : Exec E (Session T) A) (s : Session T) {e : Error E}
      → (with_transaction body s).0 ≡ err e
      → (with_transaction body s).1.tables ≡ s.tables
  unfolding with_transaction
  tables-with_transaction_err body s h = ground arith

  pub tables-with_transaction_ok :
      (body : Exec E (Session T) A) (s : Session T) {a : A}
      → (with_transaction body s).0 ≡ ok a
      → ((body (begun s)).0 ≡ ok a)
        × ((with_transaction body s).1.tables ≡ (body (begun s)).1.tables)
  unfolding with_transaction
  tables-with_transaction_ok body s h = ground arith
