-- ===== src/Scrapper/Grpc.antt =====
-- The gRPC server, internal/scrapper/infrastructure/grpc/server/server.go.
use linktracker_eng.Prelude.{ℕ, ◌||◌, List, map, Text, Error, Result, ok, err, if◌then◌else◌}
use linktracker_eng.Db.{Session}
use linktracker_eng.Scrapper.Errors.{
  Sentinel, is, not_found, link_not_found, chat_not_found, link_already_tracked, already_exists,
  bad_request,
}
use linktracker_eng.Scrapper.Tables.{Tables}
use linktracker_eng.Scrapper.Repo.{Op}
use linktracker_eng.Scrapper.Http.{LinkItem, item_of}
use linktracker_eng.Scrapper.Service
use linktracker_eng.Scrapper.Service.Bodies.{Env}

-- The codes of package codes that the program tells apart.
pub data Code : Type 0 where
  ok_code already_exists_code invalid_argument_code not_found_code unavailable_code internal_code :
      Code

-- A handler returns a message or a status.
pub data Reply (A : Type 0) : Type 0 where
  message : A → Reply A
  status : Code → Reply A

-- mapErrors
unfoldable pub map_errors : Error Sentinel → Code
unfolding is
map_errors e =
    if is e already_exists || is e link_already_tracked
    then already_exists_code
    else if is e bad_request
    then invalid_argument_code
    else if is e not_found || is e chat_not_found || is e link_not_found
    then not_found_code
    else internal_code

module _ {A B : Type 0} where
  abbrev pub to_reply : (A → B) → Result Sentinel A → Reply B
  to_reply done (ok a) = message (done a)
  to_reply done (err e) = status (map_errors e)

  -- The call of the service, and the reply by its result.
  abbrev pub call : (A → B) → Op A → Session Tables → Reply B × Session Tables
  call done m s = let (r, s') = m s in (to_reply done r, s')

abbrev pub Handler : Type 0 → Type 0
Handler A = Session Tables → Reply A × Session Tables

unfoldable pub register_chat : ℕ → Handler (Unit {0})
unfolding map_errors
register_chat chat = call (λ _. tt) (Service.add_client chat)

module _ (env : Env) where
  -- `new_id` is what uuid.New() returns
  unfoldable pub track_link : ℕ → ℕ → Text → List Text → Handler Text
  unfolding map_errors
  track_link new_id chat url tags = call (λ _. url) (Service.subscribe env new_id url chat tags)

  unfoldable pub untrack_link : ℕ → Text → Handler Text
  unfolding map_errors
  untrack_link chat url = call (λ _. url) (Service.unsubscribe env chat url)

  unfoldable pub add_tags : ℕ → Text → List Text → Handler Text
  unfolding map_errors
  add_tags chat url tags = call (λ _. url) (Service.add_tags env chat url tags)

  unfoldable pub clear_tags : ℕ → Text → Handler Text
  unfolding map_errors
  clear_tags chat url = call (λ _. url) (Service.clear_tags env chat url)

unfoldable pub list_links : ℕ → Handler (List LinkItem)
unfolding map_errors
list_links chat = call (map item_of) (Service.get_links chat)
