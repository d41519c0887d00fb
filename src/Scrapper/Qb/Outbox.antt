-- ===== src/Scrapper/Qb/Outbox.antt =====
-- internal/scrapper/infrastructure/repository/query_builder/outbox_repo.go, without AddBatch.
use linktracker_eng.Prelude.{
  ℕ, ◌-◌, Bool, true, false, not, ◌&&◌, List, [], ◌∷◌, none, some, Result, ok, fault, ◌==◌, ltb,
  if◌then◌else◌, keep, count_of, sort, argument_count,
}
use linktracker_eng.Exec.{raise, ◌>>◌}
use linktracker_eng.Db.{statement}
use linktracker_eng.Scrapper.Errors.{Sentinel}
use linktracker_eng.Scrapper.Tables.{Tables, OutboxRow}
use linktracker_eng.Scrapper.Repo.{Op}
use linktracker_eng.Scrapper.Repo.Outbox.{created_before, update_outbox, mark_error, mark_success}
use linktracker_eng.Scrapper.Qb.{
  Column, column_id, column_processed_at, Value, number, null, matches,
}

abbrev pub outbox_field : Column → OutboxRow → Value
outbox_field column_id r = number r.id
outbox_field column_processed_at r = elim r.processed_at [ none ↦ null | some p ↦ number p ]
outbox_field _ r = null

-- What Limit of goqu does.
module _ (limited : ℕ → List OutboxRow → List OutboxRow) where
  abbrev pub select_pending : ℕ → ℕ → Tables → Result Sentinel (List OutboxRow × Tables)
  select_pending limit now t = ok (
    limited limit (
        sort created_before
          (keep (matches outbox_field ((column_processed_at, null) ∷ [])) t.outbox)),
    t,
  )

  unfoldable pub fetch_pending : ℕ → Op (List OutboxRow)
  fetch_pending limit = statement (select_pending limit)

-- Exec of pgx, of a statement with some placeholders: it is prepared first, and is not sent with another
-- number of arguments.
abbrev pub exec : ℕ → ℕ → (ℕ → Tables → Result Sentinel (Unit {0} × Tables)) → Op Unit
exec placeholders args f =
    if placeholders == args
    then statement f
    else statement (λ now t. ok (tt, t)) >> raise (fault argument_count)

-- UpdateStatus; the second argument is whether there was an error to record. The list of the two
-- arguments is passed as one.
unfoldable pub update_status : ℕ → Bool → Op Unit
update_status id true = exec 2 1 (update_outbox id (λ now. mark_error))
update_status id false = exec 2 1 (update_outbox id mark_success)

-- processed_at IS NOT NULL AND processed_at < cut
abbrev pub is_set : OutboxRow → Bool
is_set r = elim r.processed_at [ none ↦ false | some p ↦ true ]

abbrev pub is_less : ℕ → OutboxRow → Bool
is_less cut r = elim r.processed_at [ none ↦ false | some p ↦ ltb p cut ]

abbrev pub delete_old : ℕ → ℕ → Tables → Result Sentinel (ℕ × Tables)
delete_old cut now t = ok (
  count_of (λ r. is_set r && is_less cut r) t.outbox,
  record t { outbox = keep (λ r. not (is_set r && is_less cut r)) t.outbox },
)

-- Cleanup, with the time that `time.Now()` returns
unfoldable pub cleanup : ℕ → ℕ → Op ℕ
cleanup clock gap = statement (delete_old (clock - gap))
