-- ===== src/Scrapper/Qb/Users.antt =====
-- internal/scrapper/infrastructure/repository/query_builder/user_repo.go
use linktracker_eng.Prelude.{
  ℕ, Bool, not, [], ◌∷◌, sentinel, fault, Result, ok, err, foreign_key_violation, ◌==◌, ◌&&◌,
  if◌then◌else◌, keep, count_of, any_of,
}
use linktracker_eng.Exec.{raise, pure, or_return, ◌>>=◌}
use linktracker_eng.Db.{statement}
use linktracker_eng.Scrapper.Errors.{Sentinel, not_found}
use linktracker_eng.Scrapper.Tables.{Tables, SubRow}
use linktracker_eng.Scrapper.Repo.{Op, on_conflict, some_rows}
use linktracker_eng.Scrapper.Repo.Users
use linktracker_eng.Scrapper.Qb.{Column, column_chat_id, Value, number, null, matches}

abbrev pub user_field : Column → ℕ → Value
user_field column_chat_id u = number u
user_field _ u = null

-- DELETE FROM users; no row that a subscription refers to
abbrev pub delete_users : (ℕ → Bool) → ℕ → Tables → Result Sentinel (ℕ × Tables)
delete_users p now t =
    if any_of (λ u. p u && any_of (λ (s : SubRow). s.user_id == u) t.subs) t.users
    then err (fault foreign_key_violation)
    else ok (count_of p t.users, record t { users = keep (λ u. not (p u)) t.users })

abbrev pub select_users : (ℕ → Bool) → ℕ → Tables → Result Sentinel (Bool × Tables)
select_users p now t = ok (any_of p t.users, t)

unfoldable pub add_client : ℕ → Op Unit
add_client id = or_return (statement (Users.insert_user id)) on_conflict

unfoldable pub remove_client : ℕ → Op Unit
unfolding some_rows any_of
remove_client id = do
  n ← statement (delete_users (matches user_field ((column_chat_id, number id) ∷ [])))
  some_rows n

unfoldable pub get_client_by_id : ℕ → Op ℕ
unfolding any_of
get_client_by_id id = do
  found ← statement (select_users (matches user_field ((column_chat_id, number id) ∷ [])))
  if found then pure id else raise (sentinel not_found)
