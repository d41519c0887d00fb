-- ===== src/Db/Quiet.antt =====
-- Sessions on a database that does not fail: between transactions, and within one.
use linktracker_eng.Prelude.{ℕ, ◌≡◌, true, false, [], Error, Result, ok, err}
use linktracker_eng.Exec.{Exec}
use linktracker_eng.Db.{Session, statement, with_transaction}

module _ {ℓ} {T : Type ℓ} where
  abbrev pub quiet : T → ℕ → Session T
  quiet t now = record { tables = t; in_tx = false; aborted = false; faults = []; now = now }

  -- Within a transaction that has met no error, or in which a statement has failed.
  abbrev pub live : T → ℕ → Session T
  live t now = record { tables = t; in_tx = true; aborted = false; faults = []; now = now }

  abbrev pub spoilt : T → ℕ → Session T
  spoilt t now = record { tables = t; in_tx = true; aborted = true; faults = []; now = now }

module _ {ℓ} {E T A : Type ℓ} where
  pub statement_ok :
      (f : ℕ → T → Result E (A × T)) {t t' : T} {now : ℕ} {a : A}
      → f now t ≡ ok (a, t')
      → statement f (live t now) ≡ (ok a, live t' now)
  unfolding statement
  statement_ok f h = rw h

  pub statement_err :
      (f : ℕ → T → Result E (A × T)) {t : T} {now : ℕ} {e : Error E}
      → f now t ≡ err e
      → statement f (live t now) ≡ (err e, spoilt t now)
  unfolding statement
  statement_err f h = rw h

  pub with_transaction_ok :
      (body : Exec E (Session T) A) {t t' : T} {now : ℕ} {a : A}
      → body (live t now) ≡ (ok a, live t' now)
      → with_transaction body (quiet t now) ≡ (ok a, quiet t' now)
  unfolding with_transaction
  with_transaction_ok body h = rw h

  -- The error of the body is the error of the transaction, and the tables are those before it.
  pub with_transaction_err :
      (body : Exec E (Session T) A) {t : T} {s : Session T} {now : ℕ} {e : Error E}
      → body (live t now) ≡ (err e, s)
      → (with_transaction body (quiet t now)).0 ≡ err e
  unfolding with_transaction
  with_transaction_err body h = rw h
