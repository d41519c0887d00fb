-- ===== src/Scrapper/Repo/Subs.antt =====
-- internal/scrapper/infrastructure/repository/sql/subs_repo.go
use linktracker_eng.Prelude.{
  ℕ, Bool, not, ◌&&◌, List, [], ◌∷◌, ◌++◌, map, Option, none, some, Text, text_eq, fault, Result,
  ok, err, unique_violation, foreign_key_violation, ◌==◌, if◌then◌else◌, keep, count_of,
}
use linktracker_eng.Exec.{pure, or_return, ◌>>=◌}
use linktracker_eng.Db.{statement}
use linktracker_eng.Scrapper.Errors.{Sentinel}
use linktracker_eng.Scrapper.Tables.{
  Tables, SubRow, LinkSubscription, new_link_subscription, set_last_update, has_user, has_link,
  has_sub, is_sub,
}
use linktracker_eng.Scrapper.Repo.{Op, on_conflict, some_rows}

abbrev pub sub_row : LinkSubscription → SubRow
sub_row s = record {
  user_id = s.user_id;
  res_id = s.res_id;
  link = s.link;
  tags = s.tags;
  last_update = some s.last_update;
}

-- INSERT INTO subscriptions; both ids refer to rows, and (user_id, res_id) is unique
abbrev pub insert_sub : LinkSubscription → ℕ → Tables → Result Sentinel (Unit {0} × Tables)
insert_sub s now t =
    if has_sub s.user_id s.res_id t.subs
    then err (fault unique_violation)
    else if has_user s.user_id t.users && has_link s.res_id t.links
    then ok (tt, record t { subs = t.subs ++ sub_row s ∷ [] })
    else err (fault foreign_key_violation)

abbrev pub delete_subs : (SubRow → Bool) → ℕ → Tables → Result Sentinel (ℕ × Tables)
delete_subs p now t = ok (count_of p t.subs, record t { subs = keep (λ s. not (p s)) t.subs })

abbrev pub update_where : (SubRow → Bool) → (SubRow → SubRow) → SubRow → SubRow
update_where p f s = if p s then f s else s

abbrev pub update_subs :
    (SubRow → Bool) → (SubRow → SubRow) → ℕ → Tables → Result Sentinel (ℕ × Tables)
update_subs p f now t = ok (count_of p t.subs, record t { subs = map (update_where p f) t.subs })

abbrev pub select_subs : (SubRow → Bool) → ℕ → Tables → Result Sentinel (List SubRow × Tables)
select_subs p now t = ok (keep p t.subs, t)

-- rows.Scan; a row whose last_update is NULL does not scan, and is passed over
abbrev pub scan_time : Option ℕ → SubRow → List LinkSubscription → List LinkSubscription
scan_time none s rest = rest
scan_time (some t) s rest =
    set_last_update t (new_link_subscription s.user_id s.res_id s.link s.tags) ∷ rest

unfoldable pub scan_subs : List SubRow → List LinkSubscription
unfolding set_last_update new_link_subscription
scan_subs [] = []
scan_subs (s ∷ ss) = scan_time s.last_update s (scan_subs ss)

-- array_agg(DISTINCT tag), which sorts by the collation of the database
module _ (collate : Text → Text → Bool) where
  unfoldable pub insert_tag : Text → List Text → List Text
  insert_tag x [] = x ∷ []
  insert_tag x (y ∷ ys) =
      let rest = insert_tag x ys in
      if text_eq x y then y ∷ ys else if collate y x then y ∷ rest else x ∷ y ∷ ys

  unfoldable pub distinct_tags : List Text → List Text
  unfolding insert_tag
  distinct_tags [] = []
  distinct_tags (x ∷ xs) = insert_tag x (distinct_tags xs)

  unfoldable pub add_tags : ℕ → ℕ → List Text → Op Unit
  unfolding some_rows distinct_tags
  add_tags user res tags = do
    n ←
        statement
          (update_subs (is_sub user res) (λ s. record s { tags = distinct_tags (s.tags ++ tags) }))
    some_rows n

unfoldable pub add_subscription : LinkSubscription → Op Unit
add_subscription s = or_return (statement (insert_sub s)) on_conflict

unfoldable pub remove_subscription : LinkSubscription → Op Unit
unfolding some_rows
remove_subscription sub = do
  n ← statement (delete_subs (λ s. is_sub sub.user_id sub.res_id s && text_eq s.link sub.link))
  some_rows n

unfoldable pub remove_subscriptions_by_user_id : ℕ → Op Unit
unfolding some_rows
remove_subscriptions_by_user_id user = do
  n ← statement (delete_subs (λ s. s.user_id == user))
  some_rows n

unfoldable pub clear_tags : ℕ → ℕ → Op Unit
unfolding some_rows
clear_tags user res = do
  n ← statement (update_subs (is_sub user res) (λ s. record s { tags = [] }))
  some_rows n

unfoldable pub get_subscriptions_by_resource_id : ℕ → Op (List LinkSubscription)
unfolding scan_subs
get_subscriptions_by_resource_id res = do
  rows ← statement (select_subs (λ s. s.res_id == res))
  pure (scan_subs rows)

unfoldable pub get_subscriptions_by_user_id : ℕ → Op (List LinkSubscription)
unfolding scan_subs
get_subscriptions_by_user_id user = do
  rows ← statement (select_subs (λ s. s.user_id == user))
  pure (scan_subs rows)

unfoldable pub update_subscription_last_update : ℕ → ℕ → ℕ → Op Unit
unfolding some_rows
update_subscription_last_update user res at = do
  n ← statement (update_subs (is_sub user res) (λ s. record s { last_update = some at }))
  some_rows n
