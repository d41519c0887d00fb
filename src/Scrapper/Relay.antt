-- ===== src/Scrapper/Relay.antt =====
-- The relay of the outbox, internal/scrapper/infrastructure/scheduler/scheduler.go, and the notifier
-- with a fallback, internal/scrapper/infrastructure/notifier/fallback.go. What the two transports
-- answer to a shot is a parameter.
use linktracker_eng.Prelude.{
  ℕ, ◌≡◌, refl, ap, ◌∙◌, Bool, true, false, List, [], ◌∷◌, Option, none, some, ◌==◌, if◌then◌else◌,
  Error, join, wrap, ok, map, take, keep, sort, any_of, Distinct, arith, Bool-cases, ==_cases, inl,
  inr, ap₂,
}
use linktracker_eng.Exec.{pure, or_return, attempt, ◌>>=◌, ◌>>◌}
use linktracker_eng.Exec.Steps.{bind_ok, or_return_ok, attempt_lem}
use linktracker_eng.Db.{statement, with_transaction}
use linktracker_eng.Db.Quiet.{quiet, live, statement_ok, with_transaction_ok}
use linktracker_eng.Scrapper.Errors.{Sentinel}
use linktracker_eng.Scrapper.Tables.{Tables, OutboxRow, ResourceShot}
use linktracker_eng.Scrapper.Repo.{Op}
use linktracker_eng.Scrapper.Repo.Outbox

-- A transport: none for a shot that is sent.
abbrev pub Transport : Type 0
Transport = ResourceShot → Option (Error Sentinel)

abbrev fallen_back : Option (Error Sentinel) → Option (Error Sentinel) → Option (Error Sentinel)
fallen_back none second = none
fallen_back (some e) none = none
fallen_back (some e) (some e') = some (join e e')

-- SendUpdate of the notifier with a fallback
unfoldable pub send_update : Transport → Transport → Transport
send_update primary fallback shot = fallen_back (primary shot) (fallback shot)

abbrev pub is_some : Option (Error Sentinel) → Bool
is_some none = false
is_some (some e) = true

-- The outbox repository that the scheduler is given.
pub record OutboxRepository : Type 0 where
  pub fetch_pending : ℕ → Op (List OutboxRow)
  pub update_status : ℕ → Bool → Op (Unit {0})
  pub cleanup : ℕ → ℕ → Op ℕ

abbrev pub sql : OutboxRepository
sql = record {
  fetch_pending = Outbox.fetch_pending;
  update_status = Outbox.update_status;
  cleanup = Outbox.cleanup;
}

module _ (repo : OutboxRepository) (notify : Transport) where
  -- The loop of relayOutboxTx; an error of UpdateStatus is only logged
  unfoldable pub relay_records : List OutboxRow → Op (Unit {0})
  relay_records [] = pure tt
  relay_records (r ∷ rs) = do
    attempt (repo.update_status r.id (is_some (notify r.shot)))
    relay_records rs

  unfoldable pub relay_outbox_tx : ℕ → Op (Unit {0})
  unfolding relay_records
  relay_outbox_tx batch = do
    records ← or_return (repo.fetch_pending batch) (wrap "fetch pending outbox")
    relay_records records

  unfoldable pub relay_outbox : ℕ → Op (Unit {0})
  unfolding relay_outbox_tx
  relay_outbox batch = with_transaction (relay_outbox_tx batch)

  unfoldable pub clean_outbox : ℕ → ℕ → Op (Unit {0})
  clean_outbox cut gap = do or_return (repo.cleanup cut gap) (wrap "outbox cleanup"); pure tt

-- The rows that a relay fetches.
abbrev pub pending : ℕ → Tables → List OutboxRow
pending batch t = take batch (sort Outbox.created_before (keep Outbox.is_pending t.outbox))

abbrev pub same_id : OutboxRow → OutboxRow → Bool
same_id a b = a.id == b.id

abbrev marked : ℕ → Bool → OutboxRow → OutboxRow
marked now true r = Outbox.mark_error r
marked now false r = Outbox.mark_success now r

update_status_lem :
    (id : ℕ) (b : Bool) (t : Tables) (now : ℕ)
    → Outbox.update_status id b (live t now)
      ≡ (ok tt, live (record t { outbox = map (Outbox.update_row id (marked now b)) t.outbox }) now)
unfolding Outbox.update_status statement
update_status_lem id true t now = refl
update_status_lem id false t now = refl

module _ (notify : Transport) (now : ℕ) where
  -- A row after the attempt to send it.
  abbrev pub attempted : OutboxRow → OutboxRow → OutboxRow
  attempted sent r = marked now (is_some (notify sent.shot)) r

  abbrev settled : List OutboxRow → OutboxRow → OutboxRow
  settled [] r = r
  settled (x ∷ xs) r = settled xs (Outbox.update_row x.id (attempted x) r)

  map-settled :
      (x : OutboxRow) (xs rows : List OutboxRow)
      → map (settled xs) (map (Outbox.update_row x.id (attempted x)) rows)
        ≡ map (settled (x ∷ xs)) rows
  map-settled x xs [] = refl
  map-settled x xs (r ∷ rows) = ap (λ l. settled (x ∷ xs) r ∷ l) (map-settled x xs rows)

  map-settled_nil : (rows : List OutboxRow) → map (settled []) rows ≡ rows
  map-settled_nil [] = refl
  map-settled_nil (r ∷ rows) = ap (λ l. r ∷ l) (map-settled_nil rows)

  relay_records_lem :
      (xs : List OutboxRow) (t : Tables)
      → relay_records sql notify xs (live t now)
        ≡ (ok tt, live (record t { outbox = map (settled xs) t.outbox }) now)
  unfolding relay_records pure
  relay_records_lem [] t = rw (map-settled_nil t.outbox) refl
  relay_records_lem (x ∷ xs) t =
      bind_ok _ _ (attempt_lem _ (update_status_lem x.id (is_some (notify x.shot)) t now))
      ∙ relay_records_lem xs _
      ∙ rw (map-settled x xs t.outbox) refl

  -- What the relay is to make of a row: a fetched one is marked once, by the outcome of its own shot.
  abbrev pub relayed : List OutboxRow → OutboxRow → OutboxRow
  relayed [] r = r
  relayed (x ∷ xs) r = if r.id == x.id then attempted x r else relayed xs r

  settled_fresh :
      (xs : List OutboxRow) (r : OutboxRow)
      → any_of (λ x. r.id == x.id) xs ≡ false
      → settled xs r ≡ r
  unfolding any_of
  settled_fresh [] r h = refl
  settled_fresh (x ∷ xs) r h = elim (Bool-cases (r.id == x.id)) [
    | inl e ↦ absurd (ground arith)
    | inr e ↦ rw e (settled_fresh xs r (ground arith))
  ]

  id-marked : (b : Bool) (r : OutboxRow) → (marked now b r).id ≡ r.id
  id-marked true r = refl
  id-marked false r = refl

  settled-relayed :
      (xs : List OutboxRow) (r : OutboxRow) → Distinct same_id xs → settled xs r ≡ relayed xs r
  settled-relayed [] r d = refl
  settled-relayed (x ∷ xs) r d = elim (==_cases r.id x.id) [
    | inr (ne, f) ↦ rw f (settled-relayed xs r d.1)
    | inl (e, f) ↦
        rw f (settled_fresh xs (attempted x r) (rw (id-marked (is_some (notify x.shot)) r, e) d.0))
  ]

  map-relayed :
      (xs rows : List OutboxRow)
      → Distinct same_id xs
      → map (settled xs) rows ≡ map (relayed xs) rows
  map-relayed xs [] d = refl
  map-relayed xs (r ∷ rows) d = ap₂ (λ a l. a ∷ l) (settled-relayed xs r d) (map-relayed xs rows d)

pub relay_outbox_lem :
    (notify : Transport) (batch now : ℕ) (t : Tables)
    → Distinct same_id (pending batch t)
    → relay_outbox sql notify batch (quiet t now) ≡ (
      ok tt,
      quiet (record t { outbox = map (relayed notify now (pending batch t)) t.outbox }) now,
    )
unfolding relay_outbox Outbox.fetch_pending
relay_outbox_lem notify batch now t d = with_transaction_ok _ (
    bind_ok _ _ (or_return_ok _ _ (statement_ok (Outbox.select_pending batch) refl))
    ∙ relay_records_lem notify now (pending batch t) t
    ∙ rw (map-relayed notify now (pending batch t) t.outbox d) refl)
