-- ===== src/Scrapper/Repo/Outbox.antt =====
-- internal/scrapper/infrastructure/repository/sql/outbox_repo.go
use linktracker_eng.Prelude.{
  ℕ, ◌+◌, ◌-◌, Bool, true, false, not, List, [], ◌∷◌, ◌++◌, map, none, some, Result, ok, ◌==◌, ltb,
  if◌then◌else◌, keep, count_of, take, sort,
}
use linktracker_eng.Db.{statement}
use linktracker_eng.Scrapper.Errors.{Sentinel}
use linktracker_eng.Scrapper.Tables.{Tables, OutboxRow, ResourceShot}
use linktracker_eng.Scrapper.Repo.{Op}

abbrev pub outbox_row : ℕ → ℕ → ResourceShot → OutboxRow
outbox_row id now shot = record {
  id = id;
  shot = shot;
  created_at = now;
  processed_at = none;
  failed = false;
  retry_count = 0;
}

abbrev pub number_rows : ℕ → ℕ → List ResourceShot → List OutboxRow
number_rows id now [] = []
number_rows id now (s ∷ ss) = outbox_row id now s ∷ number_rows (id + 1) now ss

abbrev pub next_serial : ℕ → List ResourceShot → ℕ
next_serial id [] = id
next_serial id (s ∷ ss) = next_serial (id + 1) ss

-- The INSERTs of a pgx.Batch, which run as one.
abbrev pub insert_shots : List ResourceShot → ℕ → Tables → Result Sentinel (Unit {0} × Tables)
insert_shots shots now t = ok (
  tt,
  record t {
    outbox = t.outbox ++ number_rows t.serial now shots;
    serial = next_serial t.serial shots;
  },
)

abbrev pub is_pending : OutboxRow → Bool
is_pending r = elim r.processed_at [ none ↦ true | some p ↦ false ]

abbrev pub created_before : OutboxRow → OutboxRow → Bool
created_before a b = ltb a.created_at b.created_at

abbrev pub select_pending : ℕ → ℕ → Tables → Result Sentinel (List OutboxRow × Tables)
select_pending limit now t = ok (take limit (sort created_before (keep is_pending t.outbox)), t)

abbrev pub update_row : ℕ → (OutboxRow → OutboxRow) → OutboxRow → OutboxRow
update_row id f r = if r.id == id then f r else r

abbrev pub mark_error : OutboxRow → OutboxRow
mark_error r = record r { retry_count = r.retry_count + 1; failed = true }

abbrev pub mark_success : ℕ → OutboxRow → OutboxRow
mark_success now r = record r { processed_at = some now; failed = false }

abbrev pub update_outbox :
    ℕ → (ℕ → OutboxRow → OutboxRow) → ℕ → Tables → Result Sentinel (Unit {0} × Tables)
update_outbox id f now t = ok (tt, record t { outbox = map (update_row id (f now)) t.outbox })

abbrev pub is_old : ℕ → OutboxRow → Bool
is_old cut r = elim r.processed_at [ none ↦ false | some p ↦ ltb p cut ]

abbrev pub delete_old : ℕ → ℕ → Tables → Result Sentinel (ℕ × Tables)
delete_old cut now t =
    ok (
      count_of (is_old cut) t.outbox,
      record t { outbox = keep (λ r. not (is_old cut r)) t.outbox },
    )

unfoldable pub add_batch : List ResourceShot → Op Unit
add_batch shots = statement (insert_shots shots)

unfoldable pub fetch_pending : ℕ → Op (List OutboxRow)
fetch_pending limit = statement (select_pending limit)

-- UpdateStatus; the second argument is whether there was an error to record
unfoldable pub update_status : ℕ → Bool → Op Unit
update_status id true = statement (update_outbox id (λ now. mark_error))
update_status id false = statement (update_outbox id mark_success)

-- Cleanup, with the time that `time.Now()` returns
unfoldable pub cleanup : ℕ → ℕ → Op ℕ
cleanup clock gap = statement (delete_old (clock - gap))
