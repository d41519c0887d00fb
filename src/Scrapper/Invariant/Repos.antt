-- ===== src/Scrapper/Invariant/Repos.antt =====
-- Each repository operation keeps the tables well formed, whether it succeeds or fails.
use linktracker_eng.Prelude.{
  ℕ, ◌≡◌, refl, Result, Unicode, Bool, List, Option, none, some, Text, ℤ, pos, negsuc,
}
use linktracker_eng.Db.{statement}
use linktracker_eng.Db.Keeps.{Holds, after, Keeps-statement}
use linktracker_eng.Exec.{◌>>=◌}
use linktracker_eng.Scrapper.Errors.{Sentinel}
use linktracker_eng.Exec.Keeps.{Keeps, Keeps-bind, keeps_rules}
use linktracker_eng.Scrapper.Link.{TrackedLink, Url}
use linktracker_eng.Scrapper.Tables.{Tables, LinkRow, LinkSubscription}
use linktracker_eng.Scrapper.Repo.{Op, some_rows}
use linktracker_eng.Scrapper.Repo.Users
use linktracker_eng.Scrapper.Repo.Links
use linktracker_eng.Scrapper.Repo.Subs
use linktracker_eng.Scrapper.Invariant.{IsWellFormed}
use linktracker_eng.Scrapper.Invariant.Statements.{
  insert_user-IsWellFormed, delete_user-IsWellFormed, insert_link-IsWellFormed,
  delete_link-IsWellFormed, insert_sub-IsWellFormed, delete_subs-IsWellFormed,
  update_subs-IsWellFormed,
}

-- An operation that keeps the tables well formed.
abbrev pub KeepsForm : {A : Type 0} → Op A → Type 0
KeepsForm m = Keeps (Holds IsWellFormed) m

some_rows-keeps : (n : ℕ) → KeepsForm (some_rows n)
unfolding some_rows
some_rows-keeps n = search keeps_rules

pub add_client-keeps : (id : ℕ) → KeepsForm (Users.add_client id)
unfolding Users.add_client
add_client-keeps id =
    search (
      keeps_rules,
      Keeps-statement IsWellFormed (Users.insert_user id) (insert_user-IsWellFormed id),
    )

pub remove_client-keeps : (id : ℕ) → KeepsForm (Users.remove_client id)
unfolding Users.remove_client
remove_client-keeps id = search (
  keeps_rules,
  some_rows-keeps,
  Keeps-statement IsWellFormed (Users.delete_user id) (delete_user-IsWellFormed id),
)

pub get_client_by_id-keeps : (id : ℕ) → KeepsForm (Users.get_client_by_id id)
unfolding Users.get_client_by_id
get_client_by_id-keeps id =
    Keeps-bind _ _ (Keeps-statement IsWellFormed (Users.select_user id) (λ now t h. h))
      λ found. search keeps_rules

-- A statement that only reads.
read-keeps :
    {A : Type 0} (f : ℕ → Tables → Result Sentinel (A × Tables))
    → ((now : ℕ) (t : Tables) → after (f now t) t ≡ t)
    → KeepsForm (statement f)
read-keeps f same = Keeps-statement IsWellFormed f (λ now t h. rw (same now t) h)

-- A statement that counts rows, and the error where there are none.
counted-keeps :
    (f : ℕ → Tables → Result Sentinel (ℕ × Tables))
    → ((now : ℕ) (t : Tables) → IsWellFormed t → IsWellFormed (after (f now t) t))
    → KeepsForm (do n ← statement f; some_rows n)
counted-keeps f k = Keeps-bind _ _ (Keeps-statement IsWellFormed f k) some_rows-keeps

pub add_link-keeps : (l : TrackedLink) → KeepsForm (Links.add_link l)
unfolding Links.add_link
add_link-keeps l =
    search
      (keeps_rules, Keeps-statement IsWellFormed (Links.insert_link l) (insert_link-IsWellFormed l))

pub remove_link-keeps : (id : ℕ) → KeepsForm (Links.remove_link id)
unfolding Links.remove_link
remove_link-keeps id = counted-keeps (Links.delete_link id) (delete_link-IsWellFormed id)

found_link-keeps : (r : Option LinkRow) → KeepsForm (Links.found_link r)
unfolding Links.found_link
found_link-keeps none = search keeps_rules
found_link-keeps (some l) = search keeps_rules

pub get_link_by_id-keeps : (id : ℕ) → KeepsForm (Links.get_link_by_id id)
unfolding Links.get_link_by_id
get_link_by_id-keeps id = Keeps-bind _ _ (read-keeps _ (λ now t. refl)) found_link-keeps

pub get_link_by_name-keeps :
    (u : Unicode) (parse : Text → Option Url) (name : Text)
    → KeepsForm (Links.get_link_by_name u parse name)
unfolding Links.get_link_by_name
get_link_by_name-keeps u parse name = Keeps-bind _ _ (read-keeps _ (λ now t. refl)) found_link-keeps

pub get_links_batch-keeps : (limit : ℤ) (p : Option ℕ) → KeepsForm (Links.get_links_batch limit p)
unfolding Links.get_links_batch
get_links_batch-keeps (negsuc n) p = search keeps_rules
get_links_batch-keeps (pos limit) p =
    Keeps-bind _ _ (read-keeps _ (λ now t. refl)) (λ rows. search keeps_rules)

pub add_subscription-keeps : (s : LinkSubscription) → KeepsForm (Subs.add_subscription s)
unfolding Subs.add_subscription
add_subscription-keeps s =
    search
      (keeps_rules, Keeps-statement IsWellFormed (Subs.insert_sub s) (insert_sub-IsWellFormed s))

pub remove_subscription-keeps : (s : LinkSubscription) → KeepsForm (Subs.remove_subscription s)
unfolding Subs.remove_subscription
remove_subscription-keeps s = counted-keeps _ (delete_subs-IsWellFormed _)

pub remove_subscriptions_by_user_id-keeps :
    (user : ℕ) → KeepsForm (Subs.remove_subscriptions_by_user_id user)
unfolding Subs.remove_subscriptions_by_user_id
remove_subscriptions_by_user_id-keeps user = counted-keeps _ (delete_subs-IsWellFormed _)

pub add_tags-keeps :
    (collate : Text → Text → Bool) (user res : ℕ) (tags : List Text)
    → KeepsForm (Subs.add_tags collate user res tags)
unfolding Subs.add_tags
add_tags-keeps collate user res tags =
    counted-keeps _ (λ now t. update_subs-IsWellFormed _ _ now t (λ s. (refl, refl)))

pub clear_tags-keeps : (user res : ℕ) → KeepsForm (Subs.clear_tags user res)
unfolding Subs.clear_tags
clear_tags-keeps user res =
    counted-keeps _ (λ now t. update_subs-IsWellFormed _ _ now t (λ s. (refl, refl)))

pub update_subscription_last_update-keeps :
    (user res at : ℕ) → KeepsForm (Subs.update_subscription_last_update user res at)
unfolding Subs.update_subscription_last_update
update_subscription_last_update-keeps user res at =
    counted-keeps _ (λ now t. update_subs-IsWellFormed _ _ now t (λ s. (refl, refl)))

pub get_subscriptions_by_resource_id-keeps :
    (res : ℕ) → KeepsForm (Subs.get_subscriptions_by_resource_id res)
unfolding Subs.get_subscriptions_by_resource_id
get_subscriptions_by_resource_id-keeps res =
    Keeps-bind _ _ (read-keeps _ (λ now t. refl)) (λ rows. search keeps_rules)

pub get_subscriptions_by_user_id-keeps :
    (user : ℕ) → KeepsForm (Subs.get_subscriptions_by_user_id user)
unfolding Subs.get_subscriptions_by_user_id
get_subscriptions_by_user_id-keeps user =
    Keeps-bind _ _ (read-keeps _ (λ now t. refl)) (λ rows. search keeps_rules)

pub ruleset repo_rules = (
  keeps_rules, add_client-keeps, remove_client-keeps, get_client_by_id-keeps, add_link-keeps,
  get_link_by_name-keeps, add_subscription-keeps, remove_subscription-keeps,
  remove_subscriptions_by_user_id-keeps, add_tags-keeps, clear_tags-keeps,
  get_subscriptions_by_user_id-keeps,
)
