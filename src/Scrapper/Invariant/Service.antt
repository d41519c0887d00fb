-- ===== src/Scrapper/Invariant/Service.antt =====
-- Every use case of ScrapperService keeps the tables well formed, and one that fails changes nothing.
use linktracker_eng.Prelude.{ℕ, List, Text, Result, ok, err}
use linktracker_eng.Exec.Keeps.{Keeps, Keeps-bind, Keeps-if, keeps_rules}
use linktracker_eng.Db.Keeps.{Keeps-with_transaction}
use linktracker_eng.Scrapper.Errors.{Sentinel}
use linktracker_eng.Scrapper.Link.{TrackedLink}
use linktracker_eng.Scrapper.Tables.{LinkSubscription}
use linktracker_eng.Scrapper.Service
use linktracker_eng.Scrapper.Service.Bodies.{
  Env, ensure_client_exists, create_link, link_or_new, link_by_name, links_or_empty, subscribe_tx,
  unsubscribe_tx, add_tags_tx, clear_tags_tx, get_links_tx, remove_client_tx,
}
use linktracker_eng.Scrapper.Invariant.{IsWellFormed}
use linktracker_eng.Scrapper.Invariant.Repos.{KeepsForm, repo_rules}

ensure_client_exists-keeps : (id : ℕ) → KeepsForm (ensure_client_exists id)
unfolding ensure_client_exists
ensure_client_exists-keeps id = search repo_rules

create_link-keeps : (r : Result Sentinel TrackedLink) → KeepsForm (create_link r)
unfolding create_link
create_link-keeps (ok l) = search repo_rules
create_link-keeps (err e) = search repo_rules

links_or_empty-keeps : (r : Result Sentinel (List LinkSubscription)) → KeepsForm (links_or_empty r)
unfolding links_or_empty
links_or_empty-keeps (ok l) = search repo_rules
links_or_empty-keeps (err e) = search repo_rules

link_by_name-keeps : (env : Env) (link : Text) → KeepsForm (link_by_name env link)
unfolding link_by_name
link_by_name-keeps env link = search repo_rules

link_or_new-keeps :
    (env : Env) (new_id : ℕ) (link : Text) (r : Result Sentinel TrackedLink)
    → KeepsForm (link_or_new env new_id link r)
unfolding link_or_new
link_or_new-keeps env new_id link (ok l) = search repo_rules
link_or_new-keeps env new_id link (err e) = search (repo_rules, create_link-keeps)

ruleset body_rules = (
  repo_rules, ensure_client_exists-keeps, link_by_name-keeps, link_or_new-keeps,
  links_or_empty-keeps,
)

subscribe_tx-keeps :
    (env : Env) (new_id : ℕ) (link : Text) (client : ℕ) (tags : List Text)
    → KeepsForm (subscribe_tx env new_id link client tags)
unfolding subscribe_tx
subscribe_tx-keeps env new_id link client tags = search body_rules

unsubscribe_tx-keeps :
    (env : Env) (link : Text) (client : ℕ) → KeepsForm (unsubscribe_tx env link client)
unfolding unsubscribe_tx
unsubscribe_tx-keeps env link client = search body_rules

add_tags_tx-keeps :
    (env : Env) (link : Text) (client : ℕ) (tags : List Text)
    → KeepsForm (add_tags_tx env link client tags)
unfolding add_tags_tx
add_tags_tx-keeps env link client tags = search body_rules

clear_tags_tx-keeps :
    (env : Env) (link : Text) (client : ℕ) → KeepsForm (clear_tags_tx env link client)
unfolding clear_tags_tx
clear_tags_tx-keeps env link client = search body_rules

get_links_tx-keeps : (client : ℕ) → KeepsForm (get_links_tx client)
unfolding get_links_tx
get_links_tx-keeps client = search body_rules

remove_client_tx-keeps : (client : ℕ) → KeepsForm (remove_client_tx client)
unfolding remove_client_tx
remove_client_tx-keeps client = search body_rules

pub add_client-keeps : (id : ℕ) → KeepsForm (Service.add_client id)
unfolding Service.add_client
add_client-keeps id = search repo_rules

pub remove_client-keeps : (id : ℕ) → KeepsForm (Service.remove_client id)
unfolding Service.remove_client
remove_client-keeps id = Keeps-with_transaction IsWellFormed _ (remove_client_tx-keeps id)

pub get_links-keeps : (client : ℕ) → KeepsForm (Service.get_links client)
unfolding Service.get_links
get_links-keeps client = Keeps-with_transaction IsWellFormed _ (get_links_tx-keeps client)

module _ (env : Env) where
  pub subscribe-keeps :
      (new_id : ℕ) (link : Text) (client : ℕ) (tags : List Text)
      → KeepsForm (Service.subscribe env new_id link client tags)
  unfolding Service.subscribe
  subscribe-keeps new_id link client tags =
      Keeps-with_transaction IsWellFormed _ (subscribe_tx-keeps env new_id link client tags)

  pub unsubscribe-keeps :
      (client : ℕ) (link : Text) → KeepsForm (Service.unsubscribe env client link)
  unfolding Service.unsubscribe
  unsubscribe-keeps client link =
      Keeps-with_transaction IsWellFormed _ (unsubscribe_tx-keeps env link client)

  pub add_tags-keeps :
      (client : ℕ) (link : Text) (tags : List Text)
      → KeepsForm (Service.add_tags env client link tags)
  unfolding Service.add_tags
  add_tags-keeps client link tags =
      Keeps-with_transaction IsWellFormed _ (add_tags_tx-keeps env link client tags)

  pub clear_tags-keeps : (client : ℕ) (link : Text) → KeepsForm (Service.clear_tags env client link)
  unfolding Service.clear_tags
  clear_tags-keeps client link =
      Keeps-with_transaction IsWellFormed _ (clear_tags_tx-keeps env link client)

pub ruleset service_rules = (
  keeps_rules, add_client-keeps, remove_client-keeps, get_links-keeps, subscribe-keeps,
  unsubscribe-keeps, add_tags-keeps, clear_tags-keeps,
)
