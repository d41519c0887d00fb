-- ===== src/Agent/Relay/Laws.antt =====
-- What the agent's two relays make of its tables, on a database without failures.
use linktracker_eng.Prelude.{
  ℕ, suc, ◌+◌, ◌≡◌, refl, ap, ap₂, sym, ◌∙◌, Bool, true, false, not, ◌&&◌, List, [], ◌∷◌, ◌++◌, map,
  some, ◌==◌, if◌then◌else◌, ok, wrap, any_of, count_of, is_nil, arith, Bool-cases, inl, inr,
}
use mathlib.Core.List.{append-nil}
use linktracker_eng.Exec.{pure}
use linktracker_eng.Exec.Steps.{bind_ok, or_return_ok, attempt_lem}
use linktracker_eng.Db.{statement}
use linktracker_eng.Db.Quiet.{quiet, live, statement_ok, with_transaction_ok}
use linktracker_eng.Agent.Updates.{RawUpdate, ProcessedUpdate}
use linktracker_eng.Agent.Window.{Env, handle_updates_window, process_updates, deliveries, sent}
use linktracker_eng.Agent.Window.Batches.{updates_for}
use linktracker_eng.Agent.Window.Rounds.{mentions}
use linktracker_eng.Agent.Window.Delivery.{IsOrder, deliveries_once}
use linktracker_eng.Agent.Tables.{Tables, OutboxRow}
use linktracker_eng.Agent.Inbox
use linktracker_eng.Agent.Outbox
use linktracker_eng.Agent.Relay.{
  Publisher, is_some, relay_records, relay_outbox, relay_inbox, handle_window, or_panic,
}

if_same : {A : Type 0} (b : Bool) (x : A) → (if b then x else x) ≡ x
if_same true x = refl
if_same false x = refl

module _ (publish : Publisher) (now : ℕ) where
  abbrev settled : List ProcessedUpdate → OutboxRow → OutboxRow
  settled [] r = r
  settled (u ∷ us) r =
      settled us (Outbox.update_row u.id (Outbox.marked now (is_some (publish u))) r)

  map-settled :
      (u : ProcessedUpdate) (us : List ProcessedUpdate) (rows : List OutboxRow)
      → map
          (settled us)
          (map (Outbox.update_row u.id (Outbox.marked now (is_some (publish u)))) rows)
        ≡ map (settled (u ∷ us)) rows
  map-settled u us [] = refl
  map-settled u us (r ∷ rows) = ap (λ l. settled (u ∷ us) r ∷ l) (map-settled u us rows)

  map-settled_nil : (rows : List OutboxRow) → map (settled []) rows ≡ rows
  map-settled_nil [] = refl
  map-settled_nil (r ∷ rows) = ap (λ l. r ∷ l) (map-settled_nil rows)

  relay_records_lem :
      (us : List ProcessedUpdate) (t : Tables)
      → relay_records publish us (live t now)
        ≡ (ok tt, live (record t { outbox = map (settled us) t.outbox }) now)
  unfolding relay_records pure Outbox.update_status
  relay_records_lem [] t = rw (map-settled_nil t.outbox) refl
  relay_records_lem (u ∷ us) t =
      bind_ok _ _ (attempt_lem _ (statement_ok _ refl))
      ∙ relay_records_lem us _
      ∙ rw (map-settled u us t.outbox) refl

  -- The deliveries with an id that were published, and those that were not.
  abbrev pub published : ℕ → ProcessedUpdate → Bool
  published id u = id == u.id && not (is_some (publish u))

  abbrev pub refused : ℕ → ProcessedUpdate → Bool
  refused id u = id == u.id && is_some (publish u)

  abbrev pub last_refused : ℕ → List ProcessedUpdate → Bool → Bool
  last_refused id [] b = b
  last_refused id (u ∷ us) b = last_refused id us (if id == u.id then is_some (publish u) else b)

  -- What is to become of a row: it is processed if a delivery with its id was published, and counts
  -- those that were not.
  abbrev pub judged : List ProcessedUpdate → OutboxRow → OutboxRow
  judged us r = record r {
    processed_at = if any_of (published r.update.id) us then some now else r.processed_at;
    failed = last_refused r.update.id us r.failed;
    retry_count = r.retry_count + count_of (refused r.update.id) us;
  }

  settled-judged : (us : List ProcessedUpdate) (r : OutboxRow) → settled us r ≡ judged us r
  unfolding any_of count_of
  settled-judged [] r = let same : r.retry_count + 0 ≡ r.retry_count = omega arith in rw same refl
  settled-judged (u ∷ us) r = elim (Bool-cases (r.update.id == u.id)) [
    | inr e ↦ rw e (settled-judged us r)
    | inl e ↦ elim (Bool-cases (is_some (publish u))) [
      | inl f ↦
          (let rest = count_of (refused r.update.id) us in
            let more : r.retry_count + 1 + rest ≡ r.retry_count + suc rest = omega arith in
            rw (e, f) (settled-judged us (Outbox.mark_error r) ∙ rw more refl))
      | inr f ↦
          rw (e, f)
            (settled-judged us (Outbox.mark_success now r)
              ∙ rw (if_same (any_of (published r.update.id) us) (some now)) refl)
    ]
  ]

  map-judged :
      (us : List ProcessedUpdate) (rows : List OutboxRow)
      → map (settled us) rows ≡ map (judged us) rows
  map-judged us [] = refl
  map-judged us (r ∷ rows) = ap₂ (λ a l. a ∷ l) (settled-judged us r) (map-judged us rows)

-- A relay of the agent's outbox succeeds, and judges the rows by the ids of the fetched deliveries: a
-- row is processed as soon as one delivery with its id was published, be it another row's, and its
-- retries count the deliveries with its id that were not published. The database has no
-- failures.
pub relay_outbox_by_id :
    (publish : Publisher) (batch now : ℕ) (t : Tables)
    → relay_outbox publish batch (quiet t now) ≡ (
      ok tt,
      quiet
          (record t { outbox = map (judged publish now (Outbox.pending batch t.outbox)) t.outbox })
          now,
    )
unfolding relay_outbox Outbox.fetch_pending
relay_outbox_by_id publish batch now t = with_transaction_ok _ (
    bind_ok _ _ (or_return_ok _ _ (statement_ok _ refl))
    ∙ relay_records_lem publish now (Outbox.pending batch t.outbox) t
    ∙ rw (map-judged publish now (Outbox.pending batch t.outbox) t.outbox) refl)

add_batch_lem :
    (ds : List ProcessedUpdate) (t : Tables) (now : ℕ)
    → Outbox.add_batch ds (live t now)
      ≡ (ok tt, live (record t { outbox = t.outbox ++ map (Outbox.outbox_row now) ds }) now)
unfolding Outbox.add_batch statement
add_batch_lem ds t now = refl

module _ (env : Env) (finished : List RawUpdate → List RawUpdate) (order₁ order₂ : List ℕ → List ℕ)
    (now : ℕ) (t : Tables) (ds : List ProcessedUpdate) where
  abbrev announced : Tables
  announced = record t { outbox = t.outbox ++ map (Outbox.outbox_row now) ds }

  -- The batch of deliveries in a transaction.
  sent_lem :
      (xs : List ProcessedUpdate)
      → xs ≡ ds
      → or_panic env finished order₁ order₂
          (sent Outbox.add_batch (some xs) (live t now))
          (live t now)
        ≡ (ok tt, live announced now)
  sent_lem [] e = rw (sym e, append-nil) refl
  sent_lem (x ∷ xs) e = rw (sym e) (
      or_return_ok (Outbox.add_batch (x ∷ xs)) (wrap "add batch to outbox")
        (add_batch_lem (x ∷ xs) t now))

  handle_window_lem :
      (raw : RawUpdate) (raws : List RawUpdate)
      → deliveries order₁ order₂ (process_updates env (finished (raw ∷ raws))) ≡ some ds
      → handle_window env finished order₁ order₂ (raw ∷ raws) (live t now)
        ≡ (ok tt, live announced now)
  unfolding handle_updates_window
  handle_window_lem raw raws d = rw d (sent_lem ds refl)

pub relay_inbox_once :
    (env : Env) (finished : List RawUpdate → List RawUpdate) (order₁ order₂ : List ℕ → List ℕ)
    (window now : ℕ) (t : Tables) (raw : RawUpdate) (raws : List RawUpdate)
    → IsOrder order₁
    → IsOrder order₂
    → Inbox.pending window t.inbox ≡ raw ∷ raws
    → (ds : List ProcessedUpdate) × ((c : ℕ)
        → mentions c ds
          ≡ (if is_nil (updates_for c (process_updates env (finished (raw ∷ raws)))) then 0 else 1))
      × (relay_inbox env finished order₁ order₂ window (quiet t now) ≡ (
        ok tt,
        quiet
            (record t {
              inbox = Inbox.mark_rows (raw ∷ raws) t.inbox;
              outbox = t.outbox ++ map (Outbox.outbox_row now) ds;
            })
            now,
      ))
unfolding relay_inbox Inbox.fetch_pending Inbox.mark_processed
relay_inbox_once env finished order₁ order₂ window now t raw raws h₁ h₂ p =
    let (ds, d, once) =
      deliveries_once order₁ order₂ (process_updates env (finished (raw ∷ raws))) h₁ h₂ in
    (
      ds,
      once,
      with_transaction_ok _ (
          bind_ok _ _ (
            or_return_ok (Inbox.fetch_pending window) (wrap "fetch pending inbox")
              (statement_ok (Inbox.select_pending window) (ap (λ x. ok (x, t)) p)))
          ∙ bind_ok _ _ (
              or_return_ok (handle_window env finished order₁ order₂ (raw ∷ raws))
                (wrap "handle window update")
                (handle_window_lem env finished order₁ order₂ now t ds raw raws d))
          ∙ or_return_ok (Inbox.mark_processed (raw ∷ raws)) (wrap "update inbox status")
              (statement_ok (Inbox.update_marked (raw ∷ raws)) refl)),
    )
