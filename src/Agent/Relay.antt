-- ===== src/Agent/Relay.antt =====
-- The jobs of internal/agent/infrastructure/scheduler/jobs.go. What the publisher answers to a
-- delivery is a parameter, and so are those of Window. A panic of HandleUpdatesWindow unwinds
-- the transaction like an error.
pub mod Laws
use linktracker_eng.Prelude.{
  ℕ, Bool, true, false, List, [], ◌∷◌, Option, none, some, Error, fault, wrap, run_time_panic,
  Result, err,
}
use linktracker_eng.Exec.{pure, or_return, attempt, ◌>>=◌, ◌>>◌}
use linktracker_eng.Db.{Session, with_transaction}
use linktracker_eng.Agent.Updates.{RawUpdate, ProcessedUpdate}
use linktracker_eng.Agent.Window.{Env, handle_updates_window}
use linktracker_eng.Agent.Tables.{AgentError, Tables, Op}
use linktracker_eng.Agent.Inbox
use linktracker_eng.Agent.Outbox

abbrev pub Publisher : Type 0
Publisher = ProcessedUpdate → Option (Error AgentError)

abbrev pub is_some : Option (Error AgentError) → Bool
is_some none = false
is_some (some e) = true

module _ (publish : Publisher) where
  -- The loop of relayOutboxTx; an error of UpdateStatus is only logged
  unfoldable pub relay_records : List ProcessedUpdate → Op (Unit {0})
  relay_records [] = pure tt
  relay_records (u ∷ us) = do
    attempt (Outbox.update_status u.id (is_some (publish u)))
    relay_records us

  unfoldable pub relay_outbox_tx : ℕ → Op (Unit {0})
  unfolding relay_records
  relay_outbox_tx batch = do
    records ← or_return (Outbox.fetch_pending batch) (wrap "fetch pending outbox")
    relay_records records

  unfoldable pub relay_outbox : ℕ → Op (Unit {0})
  unfolding relay_outbox_tx
  relay_outbox batch = with_transaction (relay_outbox_tx batch)

module _ (env : Env) (finished : List RawUpdate → List RawUpdate)
    (order₁ order₂ : List ℕ → List ℕ) where
  abbrev pub or_panic :
      Option (Result AgentError (Unit {0}) × Session Tables)
      → Session Tables
      → Result AgentError (Unit {0}) × Session Tables
  or_panic none s = (err (fault run_time_panic), s)
  or_panic (some r) s = r

  abbrev pub handle_window : List RawUpdate → Op (Unit {0})
  handle_window records s =
      or_panic (handle_updates_window Outbox.add_batch env finished order₁ order₂ records s) s

  unfoldable pub relay_inbox_tx : ℕ → Op (Unit {0})
  unfolding handle_updates_window
  relay_inbox_tx window = do
    records ← or_return (Inbox.fetch_pending window) (wrap "fetch pending inbox")
    or_return (handle_window records) (wrap "handle window update")
    or_return (Inbox.mark_processed records) (wrap "update inbox status")

  unfoldable pub relay_inbox : ℕ → Op (Unit {0})
  unfolding relay_inbox_tx
  relay_inbox window = with_transaction (relay_inbox_tx window)

-- cleanOutbox, cleanInbox
unfoldable pub clean_outbox : ℕ → ℕ → Op (Unit {0})
clean_outbox clock gap = do or_return (Outbox.cleanup clock gap) (wrap "outbox cleanup"); pure tt

unfoldable pub clean_inbox : ℕ → ℕ → Op (Unit {0})
clean_inbox clock gap = do or_return (Inbox.cleanup clock gap) (wrap "inbox cleanup"); pure tt
