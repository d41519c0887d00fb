-- ===== src/Scrapper/Qb/Laws.antt =====
-- The repositories through the query builder do what the ones of Scrapper/Repo do.
use linktracker_eng.Prelude.{
  ℕ, ◌≡◌, refl, ap, ◌∙◌, Bool, true, false, inl, inr, ◌&&◌, ◌||◌, List, [], ◌∷◌, Option, Text,
  Unicode, ◌==◌, ltb, any_of, text_eq, ==_cases, arith, take, pos,
}
use mathlib.Core.Path.{fun_ext}
use linktracker_eng.Db.{Session}
use linktracker_eng.Scrapper.Link.{Url, TrackedLink}
use linktracker_eng.Scrapper.Tables.{
  Tables, SubRow, LinkRow, LinkSubscription, has_user, has_link, is_sub,
}
use linktracker_eng.Scrapper.Repo.Users
use linktracker_eng.Scrapper.Repo.Links
use linktracker_eng.Scrapper.Repo.Subs
use linktracker_eng.Scrapper.Qb.{
  Column, column_user_id, column_res_id, column_link, column_chat_id, column_link_id, column_path,
  number, text, matches,
}
use linktracker_eng.Scrapper.Qb.TextArray.{text_array-to_text_array_literal}
use linktracker_eng.Scrapper.Qb.Users.{user_field}
use linktracker_eng.Scrapper.Qb.Links.{link_field}
use linktracker_eng.Scrapper.Qb.Subs.{sub_field, by_key, cast}
use linktracker_eng.Scrapper.Qb

and_true : (a : Bool) → (a && true) ≡ a
and_true true = refl
and_true false = refl

by_user :
    (user : ℕ) → matches sub_field ((column_user_id, number user) ∷ []) ≡ (λ s. s.user_id == user)
by_user user = fun_ext (λ s. and_true (s.user_id == user))

by_res : (res : ℕ) → matches sub_field ((column_res_id, number res) ∷ []) ≡ (λ s. s.res_id == res)
by_res res = fun_ext (λ s. and_true (s.res_id == res))

by_key_lem : (user res : ℕ) → matches sub_field (by_key user res) ≡ is_sub user res
by_key_lem user res = fun_ext (λ s. ap (λ b. (s.user_id == user) && b) (and_true (s.res_id == res)))

by_sub :
    (sub : LinkSubscription)
    → matches sub_field (
        (column_user_id, number sub.user_id)
        ∷ (column_res_id, number sub.res_id)
        ∷ (column_link, text sub.link)
        ∷ [])
      ≡ (λ s. is_sub sub.user_id sub.res_id s && text_eq s.link sub.link)
by_sub sub = fun_ext (λ s. ground arith)

-- Each method of the subscriptions does the same on every session through the query builder as in SQL: it
-- returns the same value or error, and leaves the same session.
pub subs_same :
    (collate : Text → Text → Bool) (sub : LinkSubscription) (user res at : ℕ) (tags : List Text)
    (s : Session Tables)
    → (Qb.Subs.add_subscription sub s ≡ Subs.add_subscription sub s)
      × (Qb.Subs.remove_subscription sub s ≡ Subs.remove_subscription sub s)
      × (Qb.Subs.remove_subscriptions_by_user_id user s
          ≡ Subs.remove_subscriptions_by_user_id user s)
      × (Qb.Subs.add_tags collate user res tags s ≡ Subs.add_tags collate user res tags s)
      × (Qb.Subs.clear_tags user res s ≡ Subs.clear_tags user res s)
      × (Qb.Subs.get_subscriptions_by_resource_id res s
          ≡ Subs.get_subscriptions_by_resource_id res s)
      × (Qb.Subs.get_subscriptions_by_user_id user s ≡ Subs.get_subscriptions_by_user_id user s)
      × (Qb.Subs.update_subscription_last_update user res at s
          ≡ Subs.update_subscription_last_update user res at s)
unfolding Qb.Subs.add_subscription Subs.add_subscription Qb.Subs.remove_subscription
    Subs.remove_subscription Qb.Subs.remove_subscriptions_by_user_id
    Subs.remove_subscriptions_by_user_id Qb.Subs.add_tags Subs.add_tags Qb.Subs.clear_tags
    Subs.clear_tags Qb.Subs.get_subscriptions_by_resource_id Subs.get_subscriptions_by_resource_id
    Qb.Subs.get_subscriptions_by_user_id Subs.get_subscriptions_by_user_id
    Qb.Subs.update_subscription_last_update Subs.update_subscription_last_update
subs_same collate sub user res at tags s = (
  rw (text_array-to_text_array_literal sub.tags) refl,
  rw (by_sub sub) refl,
  rw (by_user user) refl,
  rw (text_array-to_text_array_literal tags, by_key_lem user res) refl,
  rw (by_key_lem user res) refl,
  rw (by_res res) refl,
  rw (by_user user) refl,
  rw (by_key_lem user res) refl,
)

by_chat : (id : ℕ) → matches user_field ((column_chat_id, number id) ∷ []) ≡ (λ u. u == id)
by_chat id = fun_ext (λ u. and_true (u == id))

by_link_id :
    (id : ℕ) → matches link_field ((column_link_id, number id) ∷ []) ≡ (λ l. l.link_id == id)
by_link_id id = fun_ext (λ l. and_true (l.link_id == id))

by_path : (p : Text) → matches link_field ((column_path, text p) ∷ []) ≡ (λ l. text_eq l.path p)
by_path p = fun_ext (λ l. and_true (text_eq l.path p))

absorb : (a r : Bool) → (r || a && r) ≡ r
absorb true true = refl
absorb true false = refl
absorb false true = refl
absorb false false = refl

module _ {A : Type 0} (key : A → ℕ) where
  -- Whether a row of an id is referred to.
  referred :
      (id : ℕ) (refers : ℕ → Bool) (xs : List A)
      → any_of (λ x. (key x == id) && refers (key x)) xs
        ≡ (any_of (λ x. key x == id) xs && refers id)
  unfolding any_of
  referred id refers [] = refl
  referred id refers (x ∷ xs) = elim (==_cases (key x) id) [
    | inl (e, b) ↦
        rw (b, e, referred id refers xs) (absorb (any_of (λ x. key x == id) xs) (refers id))
    | inr (ne, b) ↦ rw b (referred id refers xs)
  ]

select_users_lem :
    (id : ℕ)
    → Qb.Users.select_users (matches user_field ((column_chat_id, number id) ∷ []))
      ≡ Users.select_user id
unfolding has_user any_of
select_users_lem id = ap Qb.Users.select_users (by_chat id)

delete_users_lem :
    (id : ℕ)
    → Qb.Users.delete_users (matches user_field ((column_chat_id, number id) ∷ []))
      ≡ Users.delete_user id
unfolding has_user
delete_users_lem id =
    ap Qb.Users.delete_users (by_chat id)
    ∙ fun_ext λ now. fun_ext λ t.
      rw (referred (λ u. u) id (λ v. any_of (λ (s : SubRow). s.user_id == v) t.subs) t.users) refl

delete_links_lem :
    (id : ℕ)
    → Qb.Links.delete_links (matches link_field ((column_link_id, number id) ∷ []))
      ≡ Links.delete_link id
unfolding has_link
delete_links_lem id =
    ap Qb.Links.delete_links (by_link_id id)
    ∙ fun_ext λ now. fun_ext λ t.
      rw
        (referred (λ (l : LinkRow). l.link_id) id
          (λ v. any_of (λ (s : SubRow). s.res_id == v) t.subs) t.links)
        refl

select_batch_lem :
    (tie : LinkRow → LinkRow → Bool) (limited : ℕ → List LinkRow → List LinkRow) (limit : ℕ)
    (pointer : Option ℕ)
    → ((a b : LinkRow) → tie a b ≡ ltb a.link_id b.link_id)
    → ((rows : List LinkRow) → limited limit rows ≡ take limit rows)
    → Qb.Links.select_batch tie limited limit pointer ≡ Links.select_batch limit pointer
select_batch_lem tie limited limit pointer ordered limits =
    let same : Qb.Links.before tie limited ≡ Links.before = fun_ext λ a. fun_ext λ b.
      ap (λ c. ltb a.created_at b.created_at || (a.created_at == b.created_at && c))
        (ordered a b) in
    fun_ext λ now. fun_ext λ t. rw (same, limits) refl

pub links_same :
    (u : Unicode) (parse : Text → Option Url) (tie : LinkRow → LinkRow → Bool)
    (limited : ℕ → List LinkRow → List LinkRow) (client id limit : ℕ) (link : TrackedLink)
    (name : Text) (pointer : Option ℕ) (s : Session Tables)
    → ((a b : LinkRow) → tie a b ≡ ltb a.link_id b.link_id)
    → ((rows : List LinkRow) → limited limit rows ≡ take limit rows)
    → (Qb.Users.add_client client s ≡ Users.add_client client s)
      × (Qb.Users.remove_client client s ≡ Users.remove_client client s)
      × (Qb.Users.get_client_by_id client s ≡ Users.get_client_by_id client s)
      × (Qb.Links.add_link link s ≡ Links.add_link link s)
      × (Qb.Links.remove_link id s ≡ Links.remove_link id s)
      × (Qb.Links.get_link_by_id id s ≡ Links.get_link_by_id id s)
      × (Qb.Links.get_link_by_name u parse name s ≡ Links.get_link_by_name u parse name s)
      × (Qb.Links.get_links_batch tie limited (pos limit) pointer s
          ≡ Links.get_links_batch (pos limit) pointer s)
unfolding Qb.Users.add_client Users.add_client Qb.Users.remove_client Users.remove_client
    Qb.Users.get_client_by_id Users.get_client_by_id Qb.Links.add_link Links.add_link
    Qb.Links.remove_link Links.remove_link Qb.Links.get_link_by_id Links.get_link_by_id
    Qb.Links.get_link_by_name Links.get_link_by_name Qb.Links.get_links_batch Links.get_links_batch
    has_user has_link
links_same u parse tie limited client id limit link name pointer s ordered limits = (
  refl,
  rw (delete_users_lem client) refl,
  rw (select_users_lem client) refl,
  refl,
  rw (delete_links_lem id) refl,
  rw (by_link_id id) refl,
  rw (by_path (Links.normalized_name u parse name)) refl,
  rw (select_batch_lem tie limited limit pointer ordered limits) refl,
)
