-- ===== src/Scrapper/Qb/Pending.antt =====
-- The outbox through the query builder.
use linktracker_eng.Prelude.{
  ℕ, ◌≡◌, refl, ◌∙◌, Bool, true, false, List, [], ◌∷◌, fault, argument_count, ok, err,
}
use linktracker_eng.Exec.{◌>>=◌, pure}
use linktracker_eng.Exec.Steps.{bind_ok, or_return_ok, attempt_lem}
use linktracker_eng.Db.Quiet.{quiet, live, statement_ok, with_transaction_ok}
use linktracker_eng.Scrapper.Relay.{
  OutboxRepository, Transport, is_some, relay_records, relay_outbox,
}
use linktracker_eng.Db.{statement}
use linktracker_eng.Scrapper.Tables.{Tables, OutboxRow}
use linktracker_eng.Scrapper.Qb.{Column, column_processed_at, null, matches}
use linktracker_eng.Scrapper.Qb.Outbox.{outbox_field}
use linktracker_eng.Scrapper.Qb

update_status_lem :
    (id : ℕ) (failed : Bool) (t : Tables) (now : ℕ)
    → Qb.Outbox.update_status id failed (live t now) ≡ (err (fault argument_count), live t now)
unfolding Qb.Outbox.update_status statement ◌>>=◌
update_status_lem id true t now = refl
update_status_lem id false t now = refl

abbrev pub built : (ℕ → List OutboxRow → List OutboxRow) → OutboxRepository
built limited = record {
  fetch_pending = Qb.Outbox.fetch_pending limited;
  update_status = Qb.Outbox.update_status;
  cleanup = Qb.Outbox.cleanup;
}

module _ (limited : ℕ → List OutboxRow → List OutboxRow) (notify : Transport) (t : Tables)
    (now : ℕ) where
  relay_records_lem :
      (rows : List OutboxRow)
      → relay_records (built limited) notify rows (live t now) ≡ (ok tt, live t now)
  unfolding relay_records pure
  relay_records_lem [] = refl
  relay_records_lem (r ∷ rows) =
      bind_ok _ _ (attempt_lem _ (update_status_lem r.id (is_some (notify r.shot)) t now))
      ∙ relay_records_lem rows

-- On a database without failures, a relay of the outbox through the query builder succeeds and leaves all
-- tables as they were, whatever the notifier answers: the rows whose shots were sent are still pending.
pub relay_outbox_nothing :
    (limited : ℕ → List OutboxRow → List OutboxRow) (notify : Transport) (batch now : ℕ)
    (t : Tables)
    → relay_outbox (built limited) notify batch (quiet t now) ≡ (ok tt, quiet t now)
unfolding relay_outbox Qb.Outbox.fetch_pending
relay_outbox_nothing limited notify batch now t = with_transaction_ok _ (
    bind_ok _ _ (or_return_ok _ _ (statement_ok (Qb.Outbox.select_pending limited batch) refl))
    ∙ relay_records_lem limited notify t now _)
