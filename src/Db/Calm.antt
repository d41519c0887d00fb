-- ===== src/Db/Calm.antt =====
-- Sessions without failures to come, by a predicate on their tables: within a transaction, and
-- between transactions.
use linktracker_eng.Prelude.{
  ℕ, ◌≡◌, refl, Bool, true, false, [], Result, ok, err, arith, ap, if◌then◌else◌,
}
use linktracker_eng.Exec.{Exec}
use linktracker_eng.Exec.Keeps.{Keeps}
use linktracker_eng.Db.{
  Session, statement, with_transaction, begun, settle, end_tx, rolled_back, failing, later,
}
use linktracker_eng.Db.Keeps.{after}

module _ {ℓ} {T : Type ℓ} (P : T → Type ℓ) where
  pub record Steady (s : Session T) : Type ℓ where
    pub no_faults : s.faults ≡ []
    pub holds : P s.tables

  pub record Calm (s : Session T) : Type ℓ where
    pub steady : Steady s
    pub no_tx : s.in_tx ≡ false
    pub sound : s.aborted ≡ false

module _ {ℓ} {B S : Type ℓ} (Q : S → Type ℓ) where
  on_both : (b : Bool) (x y : B × S) → Q x.1 → Q y.1 → Q (if b then x else y).1
  on_both true x y h k = h
  on_both false x y h k = k

module _ {ℓ} {E T A : Type ℓ} (P : T → Type ℓ) (f : ℕ → T → Result E (A × T))
    (k : (now : ℕ) (t : T) → P t → P (after (f now t) t)) where
  Steady-settle :
      (r : Result E (A × T)) (s : Session T)
      → s.faults ≡ []
      → P (after r s.tables)
      → Steady P (settle r s).1
  Steady-settle (ok (a, t)) s e h = record { no_faults = e; holds = h }
  Steady-settle (err x) s e h = record { no_faults = e; holds = h }

  pub Steady-statement : Keeps (Steady P) (statement f)
  unfolding statement
  Steady-statement = record {
    kept = λ s h. on_both (Steady P) s.aborted _ _ h (
        on_both (Steady P) (failing s.faults) _ _
          (record { no_faults = ap later h.no_faults; holds = h.holds })
          (Steady-settle (f s.now s.tables) (record s { faults = later s.faults })
            (ap later h.no_faults) (k s.now s.tables h.holds)));
  }

  Calm-settle :
      (r : Result E (A × T)) (s : Session T)
      → Calm P s
      → P (after r s.tables)
      → Calm P (settle r s).1
  Calm-settle r s c h = record {
    steady = Steady-settle r s c.steady.no_faults h;
    no_tx = ground (arith, c.no_tx);
    sound = ground (arith, c.no_tx, c.sound);
  }

  pub Calm-statement : Keeps (Calm P) (statement f)
  unfolding statement
  Calm-statement = record {
    kept = λ s h.
        let next = ap later h.steady.no_faults in
        on_both (Calm P) s.aborted _ _ h (
          on_both (Calm P) (failing s.faults) _ _
            (record {
              steady = record { no_faults = next; holds = h.steady.holds };
              no_tx = h.no_tx;
              sound = h.no_tx;
            })
            (Calm-settle (f s.now s.tables) (record s { faults = later s.faults })
              (record {
                steady = record { no_faults = next; holds = h.steady.holds };
                no_tx = h.no_tx;
                sound = h.sound;
              })
              (k s.now s.tables h.steady.holds)));
  }

module _ {ℓ} {T : Type ℓ} (P : T → Type ℓ) where
  Calm-rolled_back : (t : T) (s : Session T) → P t → Steady P s → Calm P (rolled_back t s)
  Calm-rolled_back t s p h = record {
    steady = record { no_faults = ap later h.no_faults; holds = p };
    no_tx = refl;
    sound = refl;
  }

-- Such a statement does not fail for want of the database.
module _ {ℓ} {E T A : Type ℓ} (P : T → Type ℓ) where
  pub statement_reads :
      (f : ℕ → T → Result E (A × T)) {s : Session T} {a : A}
      → Calm P s
      → f s.now s.tables ≡ ok (a, s.tables)
      → statement f s ≡ (ok a, s)
  unfolding statement
  statement_reads f c h = rw (c.sound, c.steady.no_faults, h) refl

  Calm-end_tx :
      (t : T) (r : Result E A) (s : Session T) → P t → Steady P s → Calm P (end_tx t r s).1
  Calm-end_tx t (err e) s p h = Calm-rolled_back P t s p h
  Calm-end_tx t (ok a) s p h = on_both (Calm P) s.aborted _ _ (Calm-rolled_back P t s p h) (
      on_both (Calm P) (failing s.faults) _ _ (Calm-rolled_back P t s p h) (record {
        steady = record { no_faults = ap later h.no_faults; holds = h.holds };
        no_tx = refl;
        sound = refl;
      }))

  pub Calm-with_transaction :
      (body : Exec E (Session T) A) → Keeps (Steady P) body → Keeps (Calm P) (with_transaction body)
  unfolding with_transaction
  Calm-with_transaction body k = record {
    kept = λ s h.
        let next = ap later h.steady.no_faults in
        on_both (Calm P) (failing s.faults) _ _
          (record {
            steady = record { no_faults = next; holds = h.steady.holds };
            no_tx = h.no_tx;
            sound = h.sound;
          })
          (Calm-end_tx s.tables (body (begun s)).0 (body (begun s)).1 h.steady.holds
            (k.kept (begun s) (record { no_faults = next; holds = h.steady.holds })));
  }
