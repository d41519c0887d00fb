-- ===== src/Agent/Inbox.antt =====
-- internal/agent/infrastructure/repository/inbox_repo.go
use linktracker_eng.Prelude.{
  ℕ, ◌+◌, ◌-◌, Bool, true, false, not, ◌&&◌, List, [], ◌∷◌, ◌++◌, map, Error, sentinel, fault,
  tx_aborted, unique_violation, foreign_key_violation, Result, ok, err, is_unique_violation, ltb,
  leb, ◌==◌, if◌then◌else◌, keep, any_of, count_of, sort,
}
use linktracker_eng.Exec.{pure, raise, attempt, ◌>>=◌}
use linktracker_eng.Db.{statement}
use linktracker_eng.Agent.Updates.{RawUpdate}
use linktracker_eng.Agent.Tables.{AgentError, duplicate_msg, InboxRow, Tables, Op}

abbrev pub has_update : ℕ → List InboxRow → Bool
has_update id = any_of (λ r. r.update.id == id)

abbrev pub inbox_row : RawUpdate → ℕ → InboxRow
inbox_row raw now = record { update = raw; processed = false; created_at = now }

-- addRecordInbox; update_id is unique
abbrev pub insert_record : RawUpdate → ℕ → Tables → Result AgentError (Unit {0} × Tables)
insert_record raw now t =
    if has_update raw.id t.inbox
    then err (fault unique_violation)
    else ok (tt, record t { inbox = t.inbox ++ inbox_row raw now ∷ [] })

-- Whether a failure is an answer of the server (*pgconn.PgError), and not one of the connection.
abbrev pub is_pg_error : Error AgentError → Bool
is_pg_error (fault tx_aborted) = true
is_pg_error (fault unique_violation) = true
is_pg_error (fault foreign_key_violation) = true
is_pg_error _ = false

abbrev pub recorded : Result AgentError (Unit {0}) → Op (Unit {0})
recorded (ok _) = pure tt
recorded (err e) =
    if is_pg_error e
    then (if is_unique_violation e then raise (sentinel duplicate_msg) else raise e)
    else pure tt

-- AddRecord
unfoldable pub add_record : RawUpdate → Op (Unit {0})
add_record raw = do r ← attempt (statement (insert_record raw)); recorded r

abbrev pub is_pending : InboxRow → Bool
is_pending r = not r.processed

abbrev pub earlier : InboxRow → InboxRow → Bool
earlier a b = ltb a.created_at b.created_at

-- The rows of the window that the oldest pending row starts.
abbrev pub in_window : ℕ → List InboxRow → List InboxRow → List InboxRow
in_window window [] rows = []
in_window window (oldest ∷ _) rows =
    keep (λ r. is_pending r && leb r.created_at (oldest.created_at + window)) rows

-- fetchPendingInbox, which has no ORDER BY: the rows come in the order of the table
abbrev pub pending : ℕ → List InboxRow → List RawUpdate
pending window rows =
    map (λ r. r.update) (in_window window (sort earlier (keep is_pending rows)) rows)

abbrev pub select_pending : ℕ → ℕ → Tables → Result AgentError (List RawUpdate × Tables)
select_pending window now t = ok (pending window t.inbox, t)

-- FetchPending
unfoldable pub fetch_pending : ℕ → Op (List RawUpdate)
fetch_pending window = statement (select_pending window)

abbrev pub mark_row : ℕ → InboxRow → InboxRow
mark_row id r = if r.update.id == id then record r { processed = true } else r

abbrev pub mark_rows : List RawUpdate → List InboxRow → List InboxRow
mark_rows [] rows = rows
mark_rows (u ∷ us) rows = mark_rows us (map (mark_row u.id) rows)

abbrev pub update_marked : List RawUpdate → ℕ → Tables → Result AgentError (Unit {0} × Tables)
update_marked us now t = ok (tt, record t { inbox = mark_rows us t.inbox })

-- MarkProcessed: one batch, which is one request
unfoldable pub mark_processed : List RawUpdate → Op (Unit {0})
mark_processed us = statement (update_marked us)

abbrev pub is_old : ℕ → InboxRow → Bool
is_old cut r = r.processed && ltb r.created_at cut

-- Cleanup, with the time that `time.Now()` returns
unfoldable pub cleanup : ℕ → ℕ → Op ℕ
cleanup clock gap = statement λ now t. ok (
  count_of (is_old (clock - gap)) t.inbox,
  record t { inbox = keep (λ r. not (is_old (clock - gap) r)) t.inbox },
)
