-- ===== src/Scrapper/Qb/Subs.antt =====
-- internal/scrapper/infrastructure/repository/query_builder/subs_repo.go
use linktracker_eng.Prelude.{
  ℕ, Bool, List, [], ◌∷◌, ◌++◌, Option, none, some, Text, fault, Result, err, db_failure,
}
use linktracker_eng.Exec.{pure, or_return, ◌>>=◌}
use linktracker_eng.Db.{statement}
use linktracker_eng.Scrapper.Errors.{Sentinel}
use linktracker_eng.Scrapper.Tables.{Tables, SubRow, LinkSubscription}
use linktracker_eng.Scrapper.Repo.{Op, on_conflict, some_rows}
use linktracker_eng.Scrapper.Repo.Subs.{
  insert_sub, delete_subs, update_subs, select_subs, scan_subs, distinct_tags,
}
use linktracker_eng.Scrapper.Qb.{
  Column, column_user_id, column_res_id, column_link, Value, number, text, null, Ex, matches,
}
use linktracker_eng.Scrapper.Qb.TextArray.{to_text_array_literal, text_array}

abbrev pub sub_field : Column → SubRow → Value
sub_field column_user_id s = number s.user_id
sub_field column_res_id s = number s.res_id
sub_field column_link s = text s.link
sub_field _ s = null

abbrev pub by_key : ℕ → ℕ → Ex
by_key user res = (column_user_id, number user) ∷ (column_res_id, number res) ∷ []

-- A statement with `?::text[]`, which fails where the text is no array.
abbrev pub cast :
    {A : Type 0}
    → Option (List Text)
    → (List Text → ℕ → Tables → Result Sentinel (A × Tables))
    → ℕ
    → Tables
    → Result Sentinel (A × Tables)
cast none f now t = err (fault db_failure)
cast (some tags) f now t = f tags now t

unfoldable pub add_subscription : LinkSubscription → Op Unit
unfolding to_text_array_literal text_array
add_subscription s =
    or_return
      (statement (
        cast (text_array (to_text_array_literal s.tags))
          (λ tags. insert_sub (record s { tags = tags }))))
      on_conflict

unfoldable pub remove_subscription : LinkSubscription → Op Unit
unfolding some_rows
remove_subscription sub = do
  n ← statement (
      delete_subs (
        matches sub_field (
          (column_user_id, number sub.user_id)
          ∷ (column_res_id, number sub.res_id)
          ∷ (column_link, text sub.link)
          ∷ [])))
  some_rows n

unfoldable pub remove_subscriptions_by_user_id : ℕ → Op Unit
unfolding some_rows
remove_subscriptions_by_user_id user = do
  n ← statement (delete_subs (matches sub_field ((column_user_id, number user) ∷ [])))
  some_rows n

module _ (collate : Text → Text → Bool) where
  unfoldable pub add_tags : ℕ → ℕ → List Text → Op Unit
  unfolding some_rows distinct_tags to_text_array_literal text_array
  add_tags user res tags = do
    n ← statement (
        cast (text_array (to_text_array_literal tags)) λ more.
          update_subs (matches sub_field (by_key user res))
            (λ s. record s { tags = distinct_tags collate (s.tags ++ more) }))
    some_rows n

unfoldable pub clear_tags : ℕ → ℕ → Op Unit
unfolding some_rows
clear_tags user res = do
  n ← statement (update_subs (matches sub_field (by_key user res)) (λ s. record s { tags = [] }))
  some_rows n

unfoldable pub get_subscriptions_by_resource_id : ℕ → Op (List LinkSubscription)
unfolding scan_subs
get_subscriptions_by_resource_id res = do
  rows ← statement (select_subs (matches sub_field ((column_res_id, number res) ∷ [])))
  pure (scan_subs rows)

unfoldable pub get_subscriptions_by_user_id : ℕ → Op (List LinkSubscription)
unfolding scan_subs
get_subscriptions_by_user_id user = do
  rows ← statement (select_subs (matches sub_field ((column_user_id, number user) ∷ [])))
  pure (scan_subs rows)

unfoldable pub update_subscription_last_update : ℕ → ℕ → ℕ → Op Unit
unfolding some_rows
update_subscription_last_update user res at = do
  n ←
      statement (
        update_subs (matches sub_field (by_key user res)) (λ s. record s { last_update = some at }))
  some_rows n
