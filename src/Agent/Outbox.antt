-- ===== src/Agent/Outbox.antt =====
-- internal/agent/infrastructure/repository/outbox_repo.go
use linktracker_eng.Prelude.{
  ℕ, ◌+◌, ◌-◌, Bool, true, false, not, List, ◌++◌, map, none, some, ok, ltb, ◌==◌, if◌then◌else◌,
  keep, count_of, take, sort,
}
use linktracker_eng.Db.{statement}
use linktracker_eng.Agent.Updates.{ProcessedUpdate}
use linktracker_eng.Agent.Tables.{OutboxRow, Op}

abbrev pub outbox_row : ℕ → ProcessedUpdate → OutboxRow
outbox_row now u = record {
  update = u;
  created_at = now;
  processed_at = none;
  failed = false;
  retry_count = 0;
}

-- AddBatch: the INSERTs of a pgx.Batch, which run as one
unfoldable pub add_batch : List ProcessedUpdate → Op (Unit {0})
add_batch us = statement λ now t. ok (tt, record t { outbox = t.outbox ++ map (outbox_row now) us })

abbrev pub is_pending : OutboxRow → Bool
is_pending r = elim r.processed_at [ none ↦ true | some p ↦ false ]

abbrev pub created_before : OutboxRow → OutboxRow → Bool
created_before a b = ltb a.created_at b.created_at

abbrev pub pending : ℕ → List OutboxRow → List ProcessedUpdate
pending limit rows = map (λ r. r.update) (take limit (sort created_before (keep is_pending rows)))

-- FetchPending
unfoldable pub fetch_pending : ℕ → Op (List ProcessedUpdate)
fetch_pending limit = statement λ now t. ok (pending limit t.outbox, t)

abbrev pub update_row : ℕ → (OutboxRow → OutboxRow) → OutboxRow → OutboxRow
update_row id f r = if r.update.id == id then f r else r

abbrev pub mark_error : OutboxRow → OutboxRow
mark_error r = record r { retry_count = r.retry_count + 1; failed = true }

abbrev pub mark_success : ℕ → OutboxRow → OutboxRow
mark_success now r = record r { processed_at = some now; failed = false }

abbrev pub marked : ℕ → Bool → OutboxRow → OutboxRow
marked now true = mark_error
marked now false = mark_success now

-- UpdateStatus, by the id of the update; the second argument is whether there was an error to record
unfoldable pub update_status : ℕ → Bool → Op (Unit {0})
update_status id failed =
    statement
      λ now t. ok (tt, record t { outbox = map (update_row id (marked now failed)) t.outbox })

abbrev pub is_old : ℕ → OutboxRow → Bool
is_old cut r = elim r.processed_at [ none ↦ false | some p ↦ ltb p cut ]

-- Cleanup, with the time that `time.Now()` returns
unfoldable pub cleanup : ℕ → ℕ → Op ℕ
cleanup clock gap = statement λ now t. ok (
  count_of (is_old (clock - gap)) t.outbox,
  record t { outbox = keep (λ r. not (is_old (clock - gap) r)) t.outbox },
)
