-- ===== src/Db/Keeps.antt =====
-- Invariants of the tables, under a statement and under a transaction.
use linktracker_eng.Prelude.{ℕ, arith, Result, ok, err}
use linktracker_eng.Exec.{Exec}
use linktracker_eng.Exec.Keeps.{Keeps}
use linktracker_eng.Db.{Session, statement, with_transaction, begun}

-- The tables that a statement leaves: an error changes nothing.
abbrev pub after {ℓ} : {E T A : Type ℓ} → Result E (A × T) → T → T
after (ok (a, t')) t = t'
after (err e) t = t

abbrev pub Holds {ℓ} : {T : Type ℓ} → (T → Type ℓ) → Session T → Type ℓ
Holds P s = P s.tables

module _ {ℓ} {E T A : Type ℓ} (P : T → Type ℓ) where
  pub Keeps-statement :
      (f : ℕ → T → Result E (A × T))
      → ((now : ℕ) (t : T) → P t → P (after (f now t) t))
      → Keeps (Holds P) (statement f)
  unfolding statement
  Keeps-statement f k = record { kept = λ s h. ground (arith, k s.now s.tables h) }

  pub Keeps-with_transaction :
      (body : Exec E (Session T) A) → Keeps (Holds P) body → Keeps (Holds P) (with_transaction body)
  unfolding with_transaction
  Keeps-with_transaction body k = record { kept = λ s h. ground (arith, k.kept (begun s) h) }
