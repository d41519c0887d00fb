-- ===== src/Scrapper/Http.antt =====
-- The HTTP server, internal/scrapper/infrastructure/http/server/server.go. A request is what the
-- decoder makes of its body: none, where it is no JSON.
use linktracker_eng.Prelude.{
  ℕ, not, ◌&&◌, ◌||◌, List, [], map, Option, none, some, String, Text, Error, Result, ok, err,
  if◌then◌else◌, length,
}
use linktracker_eng.Db.{Session}
use linktracker_eng.Scrapper.Errors.{
  Sentinel, is, link_not_found, chat_not_found, link_already_tracked, already_exists, bad_request,
}
use linktracker_eng.Scrapper.Tables.{Tables, LinkSubscription}
use linktracker_eng.Scrapper.Repo.{Op}
use linktracker_eng.Scrapper.Service
use linktracker_eng.Scrapper.Service.Bodies.{Env}

pub record LinkRequest : Type 0 where
  pub link : Option Text
  pub tags : Option (List Text)

pub record LinkItem : Type 0 where
  pub id : ℕ
  pub url : Text
  pub tags : List Text

pub data Body : Type 0 where
  no_body : Body
  api_error : String → String → Body
  api_error_text : String → Error Sentinel → Body  -- with err.Error()
  link_response : Text → Option (List Text) → Body
  list_response : List LinkItem → ℕ → Body

pub record Response : Type 0 where
  pub status : ℕ
  pub body : Body

abbrev pub Handler : Type 0
Handler = Session Tables → Response × Session Tables

-- http.StatusOK and so on
abbrev pub status_ok : ℕ
status_ok = 200

abbrev pub status_bad_request : ℕ
status_bad_request = 400

abbrev pub status_not_found : ℕ
status_not_found = 404

abbrev pub status_conflict : ℕ
status_conflict = 409

abbrev pub status_internal : ℕ
status_internal = 500

abbrev pub write_err : ℕ → String → String → Response
write_err status code description = record { status = status; body = api_error code description }

abbrev pub answer : Body → Response
answer body = record { status = status_ok; body = body }

module _ {A : Type 0} where
  abbrev pub to_response :
      (Error Sentinel → Response) → (A → Response) → Result Sentinel A → Response
  to_response failed done (ok a) = done a
  to_response failed done (err e) = failed e

  -- The call of the use case, and the answer by its result.
  abbrev pub call : (Error Sentinel → Response) → (A → Response) → Op A → Handler
  call failed done m s = let (r, s') = m s in (to_response failed done r, s')

abbrev missing : Option Text → (Text → Handler) → Handler
missing none next s =
    (write_err status_bad_request "StatusBadRequest" "invalid request body: missing link", s)
missing (some link) next s = next link s

-- The checks of a body with a link.
abbrev pub with_link : Option LinkRequest → (Text → Option (List Text) → Handler) → Handler
with_link none next s = (write_err status_bad_request "StatusBadRequest" "invalid request body", s)
with_link (some req) next s = missing req.link (λ link. next link req.tags) s

abbrev pub tags_or_nil : Option (List Text) → List Text
tags_or_nil none = []
tags_or_nil (some tags) = tags

abbrev unsubscribe_failed : Error Sentinel → Response
unsubscribe_failed e =
    if not (is e link_not_found) && not (is e chat_not_found)
    then write_err status_internal "StatusInternalServerError" "remove subscription"
    else write_err status_not_found "StatusNotFound" "link not found or not subscribed"

abbrev list_failed : Error Sentinel → Response
list_failed e =
    if is e chat_not_found
    then write_err status_not_found "StatusNotFound" "chat not found or not subscribed"
    else record { status = status_bad_request; body = api_error_text "StatusBadRequest" e }

abbrev subscribe_failed : Error Sentinel → Response
subscribe_failed e =
    if is e link_already_tracked
    then write_err status_conflict "StatusConflict" "link already tracked"
    else if is e chat_not_found
    then write_err status_not_found "StatusNotFound" "chat not found"
    else write_err status_bad_request "StatusBadRequest" "subscribe to link"

abbrev add_tags_failed : Error Sentinel → Response
add_tags_failed e =
    if is e chat_not_found || is e link_not_found
    then write_err status_not_found "StatusNotFound" "chat or link not found"
    else if is e bad_request
    then write_err status_bad_request "StatusBadRequest" "invalid tags payload"
    else write_err status_internal "StatusInternalServerError" "add tags"

abbrev clear_tags_failed : Error Sentinel → Response
clear_tags_failed e =
    if is e chat_not_found || is e link_not_found
    then write_err status_not_found "StatusNotFound" "chat or link not found"
    else write_err status_internal "StatusInternalServerError" "clear tags"

abbrev remove_failed : Error Sentinel → Response
remove_failed e =
    if not (is e chat_not_found)
    then write_err status_bad_request "StatusBadRequest" "remove chat"
    else write_err status_not_found "StatusNotFound" "chat not found"

abbrev add_failed : Error Sentinel → Response
add_failed e =
    if is e already_exists
    then write_err status_conflict "StatusConflict" "chat already exists"
    else write_err status_bad_request "StatusBadRequest" "add chat"

abbrev pub item_of : LinkSubscription → LinkItem
item_of s = record { id = s.res_id; url = s.link; tags = s.tags }

abbrev listed : List LinkSubscription → Response
listed links = answer (list_response (map item_of links) (length links))

module _ (env : Env) where
  -- DeleteLinks
  unfoldable pub delete_links : ℕ → Option LinkRequest → Handler
  unfolding is
  delete_links chat req = with_link req λ link tags.
      call unsubscribe_failed (λ _. answer (link_response link none))
        (Service.unsubscribe env chat link)

  -- PostLinks; `new_id` is what uuid.New() returns
  unfoldable pub post_links : ℕ → ℕ → Option LinkRequest → Handler
  unfolding is
  post_links new_id chat req = with_link req λ link tags.
      call subscribe_failed (λ _. answer (link_response link tags))
        (Service.subscribe env new_id link chat (tags_or_nil tags))

  -- PostTags
  unfoldable pub post_tags : ℕ → Option LinkRequest → Handler
  unfolding is
  post_tags chat req = with_link req λ link tags.
      call add_tags_failed (λ _. answer (link_response link tags))
        (Service.add_tags env chat link (tags_or_nil tags))

  -- DeleteTags
  unfoldable pub delete_tags : ℕ → Option LinkRequest → Handler
  unfolding is
  delete_tags chat req = with_link req λ link tags.
      call clear_tags_failed (λ _. answer (link_response link (some [])))
        (Service.clear_tags env chat link)

-- GetLinks
unfoldable pub get_links : ℕ → Handler
unfolding is
get_links chat = call list_failed listed (Service.get_links chat)

-- DeleteTgChatId
unfoldable pub delete_tg_chat_id : ℕ → Handler
unfolding is
delete_tg_chat_id id = call remove_failed (λ _. answer no_body) (Service.remove_client id)

-- PostTgChatId
unfoldable pub post_tg_chat_id : ℕ → Handler
unfolding is
post_tg_chat_id id = call add_failed (λ _. answer no_body) (Service.add_client id)
