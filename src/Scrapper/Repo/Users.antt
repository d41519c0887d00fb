-- ===== src/Scrapper/Repo/Users.antt =====
-- internal/scrapper/infrastructure/repository/sql/user_repo.go
use linktracker_eng.Prelude.{
  ℕ, Bool, not, [], ◌∷◌, ◌++◌, sentinel, fault, Result, ok, err, unique_violation,
  foreign_key_violation, ◌==◌, ◌&&◌, if◌then◌else◌, keep, count_of, any_of,
}
use linktracker_eng.Exec.{raise, pure, or_return, ◌>>=◌}
use linktracker_eng.Db.{statement}
use linktracker_eng.Scrapper.Errors.{Sentinel, not_found}
use linktracker_eng.Scrapper.Tables.{Tables, has_user}
use linktracker_eng.Scrapper.Repo.{Op, on_conflict, some_rows}

-- INSERT INTO users; `chat_id` is the primary key
abbrev pub insert_user : ℕ → ℕ → Tables → Result Sentinel (Unit {0} × Tables)
insert_user id now t =
    if has_user id t.users
    then err (fault unique_violation)
    else ok (tt, record t { users = t.users ++ id ∷ [] })

-- DELETE FROM users; subscriptions.user_id refers to the row
abbrev pub delete_user : ℕ → ℕ → Tables → Result Sentinel (ℕ × Tables)
delete_user id now t =
    if has_user id t.users && any_of (λ s. s.user_id == id) t.subs
    then err (fault foreign_key_violation)
    else ok
        (count_of (λ u. u == id) t.users, record t { users = keep (λ u. not (u == id)) t.users })

abbrev pub select_user : ℕ → ℕ → Tables → Result Sentinel (Bool × Tables)
select_user id now t = ok (has_user id t.users, t)

unfoldable pub add_client : ℕ → Op Unit
add_client id = or_return (statement (insert_user id)) on_conflict

unfoldable pub remove_client : ℕ → Op Unit
unfolding some_rows
remove_client id = do n ← statement (delete_user id); some_rows n

-- The client, which is its id; pgx.ErrNoRows is ErrNotFound.
unfoldable pub get_client_by_id : ℕ → Op ℕ
get_client_by_id id = do
  found ← statement (select_user id)
  if found then pure id else raise (sentinel not_found)
