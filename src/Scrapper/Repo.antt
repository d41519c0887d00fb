-- ===== src/Scrapper/Repo.antt =====
-- The repositories over PostgreSQL: internal/scrapper/infrastructure/repository/sql. A module for
-- each table.
pub mod Users
pub mod Links
pub mod Subs
pub mod Outbox
use linktracker_eng.Prelude.{ℕ, Error, sentinel, is_unique_violation, ◌==◌, if◌then◌else◌}
use linktracker_eng.Exec.{Exec, raise, pure}
use linktracker_eng.Db.{Session}
use linktracker_eng.Scrapper.Errors.{Sentinel, not_found, already_exists}
use linktracker_eng.Scrapper.Tables.{Tables}

abbrev pub Op : Type 0 → Type 0
Op A = Exec Sentinel (Session Tables) A

abbrev pub on_conflict : Error Sentinel → Error Sentinel
on_conflict e = if is_unique_violation e then sentinel already_exists else e

-- if commandTag.RowsAffected() == 0 { return ErrNotFound }
unfoldable pub some_rows : ℕ → Op Unit
some_rows n = if n == 0 then raise (sentinel not_found) else pure tt
