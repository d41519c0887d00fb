-- ===== src/Scrapper/Frame/Service.antt =====
-- Each request of one client leaves what is another client's, with any database failures.
use linktracker_eng.Prelude.{ℕ, ◌≡◌, ◌≢◌, refl, ap, Bool, List, [], Text, Result, ok, err}
use linktracker_eng.Exec.Keeps.{keeps_rules}
use linktracker_eng.Db.Keeps.{Keeps-with_transaction}
use linktracker_eng.Scrapper.Errors.{Sentinel}
use linktracker_eng.Scrapper.Link.{TrackedLink}
use linktracker_eng.Db.{Session}
use linktracker_eng.Scrapper.Tables.{Tables, SubRow, LinkSubscription, has_user}
use linktracker_eng.Scrapper.Repo.Subs.{scan_subs}
use linktracker_eng.Scrapper.Service.Tracking.{links_of}
use linktracker_eng.Scrapper.Service
use linktracker_eng.Scrapper.Service.Bodies.{
  Env, ensure_client_exists, create_link, link_or_new, link_by_name, links_or_empty, subscribe_tx,
  unsubscribe_tx, add_tags_tx, clear_tags_tx, get_links_tx, remove_client_tx,
}
use linktracker_eng.Scrapper.Requests.{
  Request, get_links, subscribe, unsubscribe, add_client, remove_client, add_tags, clear_tags,
  serve,
}
use linktracker_eng.Scrapper.Frame.{Mine}
use linktracker_eng.Scrapper.Frame.Repos

-- The client of a request.
abbrev pub client_of : Request → ℕ
client_of (get_links client) = client
client_of (subscribe new_id link client tags) = client
client_of (unsubscribe client link) = client
client_of (add_client client) = client
client_of (remove_client client) = client
client_of (add_tags client link tags) = client
client_of (clear_tags client link) = client

module _ (k : ℕ) (b : Bool) (rows : List SubRow) where
  ensure_client_exists-Spared : (id : ℕ) → Repos.Spared k b rows (ensure_client_exists id)
  unfolding ensure_client_exists
  ensure_client_exists-Spared id = search (keeps_rules, Repos.get_client_by_id-Spared k b rows)

  create_link-Spared : (r : Result Sentinel TrackedLink) → Repos.Spared k b rows (create_link r)
  unfolding create_link
  create_link-Spared (ok l) = search (keeps_rules, Repos.add_link-Spared k b rows)
  create_link-Spared (err e) = search keeps_rules

  links_or_empty-Spared :
      (r : Result Sentinel (List LinkSubscription)) → Repos.Spared k b rows (links_or_empty r)
  unfolding links_or_empty
  links_or_empty-Spared (ok l) = search keeps_rules
  links_or_empty-Spared (err e) = search keeps_rules

  link_by_name-Spared : (env : Env) (link : Text) → Repos.Spared k b rows (link_by_name env link)
  unfolding link_by_name
  link_by_name-Spared env link = Repos.get_link_by_name-Spared k b rows env.unicode env.parse link

  link_or_new-Spared :
      (env : Env) (new_id : ℕ) (link : Text) (r : Result Sentinel TrackedLink)
      → Repos.Spared k b rows (link_or_new env new_id link r)
  unfolding link_or_new
  link_or_new-Spared env new_id link (ok l) = search keeps_rules
  link_or_new-Spared env new_id link (err e) = search (keeps_rules, create_link-Spared)

  module _ (client : ℕ) (ne : k ≢ client) (env : Env) where
    subscribe_tx-Spared :
        (new_id : ℕ) (link : Text) (tags : List Text)
        → Repos.Spared k b rows (subscribe_tx env new_id link client tags)
    unfolding subscribe_tx
    subscribe_tx-Spared new_id link tags = search (
      keeps_rules,
      ensure_client_exists-Spared,
      link_by_name-Spared,
      link_or_new-Spared,
      Repos.add_subscription-Spared k b rows client ne,
    )

    unsubscribe_tx-Spared : (link : Text) → Repos.Spared k b rows (unsubscribe_tx env link client)
    unfolding unsubscribe_tx
    unsubscribe_tx-Spared link = search (
      keeps_rules,
      ensure_client_exists-Spared,
      link_by_name-Spared,
      Repos.remove_subscription-Spared k b rows client ne,
    )

    add_tags_tx-Spared :
        (link : Text) (tags : List Text) → Repos.Spared k b rows (add_tags_tx env link client tags)
    unfolding add_tags_tx
    add_tags_tx-Spared link tags = search (
      keeps_rules,
      ensure_client_exists-Spared,
      link_by_name-Spared,
      Repos.add_tags-Spared k b rows client ne,
    )

    clear_tags_tx-Spared : (link : Text) → Repos.Spared k b rows (clear_tags_tx env link client)
    unfolding clear_tags_tx
    clear_tags_tx-Spared link = search (
      keeps_rules,
      ensure_client_exists-Spared,
      link_by_name-Spared,
      Repos.clear_tags-Spared k b rows client ne,
    )

    get_links_tx-Spared : (id : ℕ) → Repos.Spared k b rows (get_links_tx id)
    unfolding get_links_tx
    get_links_tx-Spared id = search (
      keeps_rules,
      ensure_client_exists-Spared,
      links_or_empty-Spared,
      Repos.get_subscriptions_by_user_id-Spared k b rows,
    )

    remove_client_tx-Spared : Repos.Spared k b rows (remove_client_tx client)
    unfolding remove_client_tx
    remove_client_tx-Spared = search (
      keeps_rules,
      ensure_client_exists-Spared,
      Repos.remove_subscriptions_by_user_id-Spared k b rows,
      Repos.remove_client-Spared k b rows,
    )

    -- The use cases of the service.
    use_case-Spared :
        (new_id : ℕ) (link : Text) (tags : List Text)
        → Repos.Spared k b rows (Service.get_links client)
          × Repos.Spared k b rows (Service.subscribe env new_id link client tags)
          × Repos.Spared k b rows (Service.unsubscribe env client link)
          × Repos.Spared k b rows (Service.remove_client client)
          × Repos.Spared k b rows (Service.add_tags env client link tags)
          × Repos.Spared k b rows (Service.clear_tags env client link)
          × Repos.Spared k b rows (Service.add_client client)
    unfolding Service.get_links Service.subscribe Service.unsubscribe Service.remove_client
        Service.add_tags Service.clear_tags Service.add_client
    use_case-Spared new_id link tags = (
      Keeps-with_transaction (Mine k b rows) _ (get_links_tx-Spared client),
      Keeps-with_transaction (Mine k b rows) _ (subscribe_tx-Spared new_id link tags),
      Keeps-with_transaction (Mine k b rows) _ (unsubscribe_tx-Spared link),
      Keeps-with_transaction (Mine k b rows) _ remove_client_tx-Spared,
      Keeps-with_transaction (Mine k b rows) _ (add_tags_tx-Spared link tags),
      Keeps-with_transaction (Mine k b rows) _ (clear_tags_tx-Spared link),
      search (keeps_rules, Repos.add_client-Spared k b rows client ne),
    )

-- A request leaves the registration and the subscriptions of every client but its own.
pub serve-Mine :
    (env : Env) (r : Request) (k : ℕ) (b : Bool) (rows : List SubRow)
    → k ≢ client_of r
    → Repos.Spared k b rows (serve env r)
unfolding serve
serve-Mine env (get_links client) k b rows ne = (use_case-Spared k b rows client ne env 0 [] []).0
serve-Mine env (subscribe new_id link client tags) k b rows ne =
    search (keeps_rules, (use_case-Spared k b rows client ne env new_id link tags).1)
serve-Mine env (unsubscribe client link) k b rows ne =
    search (keeps_rules, (use_case-Spared k b rows client ne env 0 link []).2)
serve-Mine env (remove_client client) k b rows ne =
    search (keeps_rules, (use_case-Spared k b rows client ne env 0 [] []).3)
serve-Mine env (add_tags client link tags) k b rows ne =
    search (keeps_rules, (use_case-Spared k b rows client ne env 0 link tags).4)
serve-Mine env (clear_tags client link) k b rows ne =
    search (keeps_rules, (use_case-Spared k b rows client ne env 0 link []).5)
serve-Mine env (add_client client) k b rows ne =
    search (keeps_rules, (use_case-Spared k b rows client ne env 0 [] []).6)

-- A request changes neither whether another client is registered nor its subscriptions, whether it
-- succeeds or fails.
pub serve-other_client :
    (env : Env) (r : Request) (k : ℕ) (s : Session Tables)
    → k ≢ client_of r
    → let s' = (serve env r s).1 in
      (has_user k s'.tables.users ≡ has_user k s.tables.users)
      × (links_of k s'.tables ≡ links_of k s.tables)
serve-other_client env r k s ne =
    let mine = (serve-Mine env r k _ _ ne).kept s (record { user = refl; subs = refl }) in
    (mine.user, ap scan_subs mine.subs)
