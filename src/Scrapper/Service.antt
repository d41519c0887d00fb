-- ===== src/Scrapper/Service.antt =====
-- ScrapperService: internal/scrapper/application/subscription_case.go (each use case is one
-- transaction) and subscription_tx.go (their bodies). `linksCache` is never set by
-- NewScrapperService, so GetLinks always reads the tables.
pub mod Bodies
pub mod Removal
pub mod Quiet
pub mod Tracking
pub mod RoundTrip
pub mod Removing
pub mod Undo
use linktracker_eng.Prelude.{ℕ, List, Text, Error, sentinel, wrap, if◌then◌else◌}
use linktracker_eng.Exec.{or_return}
use linktracker_eng.Db.{with_transaction}
use linktracker_eng.Scrapper.Errors.{Sentinel, already_exists, is}
use linktracker_eng.Scrapper.Tables.{LinkSubscription}
use linktracker_eng.Scrapper.Repo.{Op}
use linktracker_eng.Scrapper.Repo.Users
use Bodies.{
  Env, subscribe_tx, get_links_tx, unsubscribe_tx, remove_client_tx, add_tags_tx, clear_tags_tx,
}

-- AddClient runs outside a transaction.
abbrev pub add_client_error : Error Sentinel → Error Sentinel
add_client_error e =
    if is e already_exists then sentinel already_exists else wrap "add client error" e

unfoldable pub add_client : ℕ → Op Unit
add_client id = or_return (Users.add_client id) add_client_error

unfoldable pub remove_client : ℕ → Op Unit
unfolding remove_client_tx
remove_client id = with_transaction (remove_client_tx id)

module _ (env : Env) where
  unfoldable pub subscribe : ℕ → Text → ℕ → List Text → Op Unit
  unfolding subscribe_tx
  subscribe new_id link client tags = with_transaction (subscribe_tx env new_id link client tags)

  unfoldable pub unsubscribe : ℕ → Text → Op Unit
  unfolding unsubscribe_tx
  unsubscribe client link = with_transaction (unsubscribe_tx env link client)

  unfoldable pub add_tags : ℕ → Text → List Text → Op Unit
  unfolding add_tags_tx
  add_tags client link tags = with_transaction (add_tags_tx env link client tags)

  unfoldable pub clear_tags : ℕ → Text → Op Unit
  unfolding clear_tags_tx
  clear_tags client link = with_transaction (clear_tags_tx env link client)

unfoldable pub get_links : ℕ → Op (List LinkSubscription)
unfolding get_links_tx
get_links client = with_transaction (get_links_tx client)
