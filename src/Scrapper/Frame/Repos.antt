-- ===== src/Scrapper/Frame/Repos.antt =====
-- Each repository operation for one client leaves what is another client's.
use linktracker_eng.Prelude.{
  ℕ, ◌≡◌, ◌≢◌, refl, Bool, List, Option, none, some, Text, Result, Unicode, arith,
}
use linktracker_eng.Exec.{◌>>=◌}
use linktracker_eng.Exec.Keeps.{Keeps, Keeps-bind, keeps_rules}
use linktracker_eng.Db.{statement}
use linktracker_eng.Db.Keeps.{Holds, after, Keeps-statement}
use linktracker_eng.Scrapper.Errors.{Sentinel}
use linktracker_eng.Scrapper.Link.{TrackedLink, Url}
use linktracker_eng.Scrapper.Tables.{Tables, SubRow, LinkRow, new_link_subscription}
use linktracker_eng.Scrapper.Repo.{Op, some_rows}
use linktracker_eng.Scrapper.Repo.Users
use linktracker_eng.Scrapper.Repo.Links
use linktracker_eng.Scrapper.Repo.Subs
use linktracker_eng.Scrapper.Frame.{
  Mine, insert_user-Mine, delete_user-Mine, insert_link-Mine, insert_sub-Mine, delete_subs-Mine,
  update_subs-Mine,
}

-- An operation that leaves what the tables hold of the client `k`.
abbrev pub Spared : {A : Type 0} → ℕ → Bool → List SubRow → Op A → Type 0
Spared k b rows m = Keeps (Holds (Mine k b rows)) m

module _ (k : ℕ) (b : Bool) (rows : List SubRow) where
  some_rows-Spared : (n : ℕ) → Spared k b rows (some_rows n)
  unfolding some_rows
  some_rows-Spared n = search keeps_rules

  read-Spared :
      {A : Type 0} (f : ℕ → Tables → Result Sentinel (A × Tables))
      → ((now : ℕ) (t : Tables) → after (f now t) t ≡ t)
      → Spared k b rows (statement f)
  read-Spared f same = Keeps-statement (Mine k b rows) f (λ now t h. rw (same now t) h)

  counted-Spared :
      (f : ℕ → Tables → Result Sentinel (ℕ × Tables))
      → ((now : ℕ) (t : Tables) → Mine k b rows t → Mine k b rows (after (f now t) t))
      → Spared k b rows (do n ← statement f; some_rows n)
  counted-Spared f h = Keeps-bind _ _ (Keeps-statement (Mine k b rows) f h) some_rows-Spared

  found_link-Spared : (r : Option LinkRow) → Spared k b rows (Links.found_link r)
  unfolding Links.found_link
  found_link-Spared none = search keeps_rules
  found_link-Spared (some l) = search keeps_rules

  pub get_client_by_id-Spared : (id : ℕ) → Spared k b rows (Users.get_client_by_id id)
  unfolding Users.get_client_by_id
  get_client_by_id-Spared id =
      Keeps-bind _ _ (read-Spared _ (λ now t. refl)) λ found. search keeps_rules

  pub get_link_by_name-Spared :
      (u : Unicode) (parse : Text → Option Url) (name : Text)
      → Spared k b rows (Links.get_link_by_name u parse name)
  unfolding Links.get_link_by_name
  get_link_by_name-Spared u parse name =
      Keeps-bind _ _ (read-Spared _ (λ now t. refl)) found_link-Spared

  pub add_link-Spared : (l : TrackedLink) → Spared k b rows (Links.add_link l)
  unfolding Links.add_link
  add_link-Spared l = search (
    keeps_rules,
    Keeps-statement (Mine k b rows) (Links.insert_link l) (insert_link-Mine k b rows l),
  )

  pub get_subscriptions_by_user_id-Spared :
      (user : ℕ) → Spared k b rows (Subs.get_subscriptions_by_user_id user)
  unfolding Subs.get_subscriptions_by_user_id
  get_subscriptions_by_user_id-Spared user =
      Keeps-bind _ _ (read-Spared _ (λ now t. refl)) (λ found. search keeps_rules)

  module _ (client : ℕ) (ne : k ≢ client) where
    pub add_client-Spared : Spared k b rows (Users.add_client client)
    unfolding Users.add_client
    add_client-Spared = search (
      keeps_rules,
      Keeps-statement (Mine k b rows) (Users.insert_user client)
          (λ now t. insert_user-Mine k b rows client now t ne),
    )

    pub remove_client-Spared : Spared k b rows (Users.remove_client client)
    unfolding Users.remove_client
    remove_client-Spared = counted-Spared _ (λ now t. delete_user-Mine k b rows client now t ne)

    pub add_subscription-Spared :
        (res : ℕ) (link : Text) (tags : List Text)
        → Spared k b rows (Subs.add_subscription (new_link_subscription client res link tags))
    unfolding Subs.add_subscription new_link_subscription
    add_subscription-Spared res link tags = search (
      keeps_rules,
      Keeps-statement (Mine k b rows) (Subs.insert_sub (new_link_subscription client res link tags))
          (λ now t. insert_sub-Mine k b rows (new_link_subscription client res link tags) now t ne),
    )

    pub remove_subscription-Spared :
        (res : ℕ) (link : Text) (tags : List Text)
        → Spared k b rows (Subs.remove_subscription (new_link_subscription client res link tags))
    unfolding Subs.remove_subscription new_link_subscription
    remove_subscription-Spared res link tags =
        counted-Spared _ (λ now t. delete_subs-Mine k b rows _ now t (λ s e. ground arith))

    pub remove_subscriptions_by_user_id-Spared :
        Spared k b rows (Subs.remove_subscriptions_by_user_id client)
    unfolding Subs.remove_subscriptions_by_user_id
    remove_subscriptions_by_user_id-Spared =
        counted-Spared _ (λ now t. delete_subs-Mine k b rows _ now t (λ s e. ground arith))

    pub add_tags-Spared :
        (collate : Text → Text → Bool) (res : ℕ) (tags : List Text)
        → Spared k b rows (Subs.add_tags collate client res tags)
    unfolding Subs.add_tags
    add_tags-Spared collate res tags =
        counted-Spared _
          (λ now t. update_subs-Mine k b rows _ _ now t (λ s e. ground arith) (λ s. refl))

    pub clear_tags-Spared : (res : ℕ) → Spared k b rows (Subs.clear_tags client res)
    unfolding Subs.clear_tags
    clear_tags-Spared res =
        counted-Spared _
          (λ now t. update_subs-Mine k b rows _ _ now t (λ s e. ground arith) (λ s. refl))
