-- ===== src/Scrapper/Service/Bodies.antt =====
-- internal/scrapper/application/subscription_tx.go, and ensureClientExists
use linktracker_eng.Prelude.{
  ℕ, String, Bool, not, List, [], Text, Error, sentinel, wrap, Result, ok, err, if◌then◌else◌,
  Unicode, is_nil, Option,
}
use linktracker_eng.Exec.{raise, pure, or_return, attempt, ◌>>=◌, ◌>>◌}
use linktracker_eng.Scrapper.Errors.{
  Sentinel, not_found, already_exists, bad_request, chat_not_found, link_not_found,
  link_already_tracked, is,
}
use linktracker_eng.Scrapper.Link.{Url, TrackedLink, new_tracked_link}
use linktracker_eng.Scrapper.Tables.{LinkSubscription, new_link_subscription}
use linktracker_eng.Scrapper.Repo.{Op}
use linktracker_eng.Scrapper.Repo.Users
use linktracker_eng.Scrapper.Repo.Links
use linktracker_eng.Scrapper.Repo.Subs

-- What the service takes from outside: the tables of `unicode`, `url.Parse`, and the collation of
-- the database ("comes before").
pub record Env : Type 0 where
  pub unicode : Unicode
  pub parse : Text → Option Url
  pub collate : Text → Text → Bool

abbrev pub client_error : Error Sentinel → Error Sentinel
client_error e = if is e not_found then sentinel not_found else wrap "get client" e

-- ensureClientExists
unfoldable pub ensure_client_exists : ℕ → Op Unit
ensure_client_exists client = do or_return (Users.get_client_by_id client) client_error; pure tt

abbrev pub add_link_error : Error Sentinel → Error Sentinel
add_link_error = wrap "add link"

abbrev pub subscription_error : Error Sentinel → Error Sentinel
subscription_error e =
    if is e already_exists then sentinel link_already_tracked else wrap "add subscription" e

-- The error of a call that names a link, and of a statement on the subscription to it.
abbrev pub missing_link : String → Error Sentinel → Error Sentinel
missing_link op e = if is e not_found then sentinel link_not_found else wrap op e

unfoldable pub create_link : Result Sentinel TrackedLink → Op TrackedLink
create_link (err e) = raise e
create_link (ok l) = do or_return (Links.add_link l) add_link_error; pure l

module _ (env : Env) where
  unfoldable pub link_or_new : ℕ → Text → Result Sentinel TrackedLink → Op TrackedLink
  unfolding create_link
  link_or_new new_id link (ok l) = pure l
  link_or_new new_id link (err e) =
      if not (is e not_found)
      then raise (wrap "get link" e)
      else create_link (new_tracked_link env.unicode env.parse new_id link)

  unfoldable pub link_by_name : Text → Op TrackedLink
  link_by_name link = Links.get_link_by_name env.unicode env.parse link

  unfoldable pub subscribe_tx : ℕ → Text → ℕ → List Text → Op Unit
  unfolding ensure_client_exists link_by_name link_or_new
  subscribe_tx new_id link client tags = do
    ensure_client_exists client
    found ← attempt (link_by_name link)
    l ← link_or_new new_id link found
    or_return (Subs.add_subscription (new_link_subscription client l.id link tags))
        subscription_error

  unfoldable pub unsubscribe_tx : Text → ℕ → Op Unit
  unfolding ensure_client_exists link_by_name
  unsubscribe_tx link client = do
    ensure_client_exists client
    l ← or_return (link_by_name link) (missing_link "get link")
    or_return (Subs.remove_subscription (new_link_subscription client l.id link []))
        (missing_link "remove subscription")

  unfoldable pub add_tags_tx : Text → ℕ → List Text → Op Unit
  unfolding ensure_client_exists link_by_name
  add_tags_tx link client tags = if is_nil tags then raise (sentinel bad_request) else do
    ensure_client_exists client
    l ← or_return (link_by_name link) (missing_link "get link")
    or_return (Subs.add_tags env.collate client l.id tags) (missing_link "add tags")

  unfoldable pub clear_tags_tx : Text → ℕ → Op Unit
  unfolding ensure_client_exists link_by_name
  clear_tags_tx link client = do
    ensure_client_exists client
    l ← or_return (link_by_name link) (missing_link "get link")
    or_return (Subs.clear_tags client l.id) (missing_link "clear tags")

-- a list that is not found is the empty list
unfoldable pub links_or_empty : Result Sentinel (List LinkSubscription) → Op (List LinkSubscription)
links_or_empty (ok links) = pure links
links_or_empty (err e) = if is e not_found then pure [] else raise (wrap "get subscriptions" e)

unfoldable pub get_links_tx : ℕ → Op (List LinkSubscription)
unfolding ensure_client_exists links_or_empty
get_links_tx client = do
  ensure_client_exists client
  found ← attempt (Subs.get_subscriptions_by_user_id client)
  links_or_empty found

abbrev pub remove_error : Error Sentinel → Error Sentinel
remove_error e = if is e not_found then sentinel chat_not_found else wrap "remove client" e

unfoldable pub remove_client_tx : ℕ → Op Unit
unfolding ensure_client_exists
remove_client_tx client = do
  ensure_client_exists client
  or_return (Subs.remove_subscriptions_by_user_id client) (wrap "remove subscriptions")
  or_return (Users.remove_client client) remove_error
