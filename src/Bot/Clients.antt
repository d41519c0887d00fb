-- ===== src/Bot/Clients.antt =====
-- The bot's clients of the scrapper, internal/bot/infrastructure/http/client/client.go and
-- internal/bot/infrastructure/grpc/client/client.go. What the circuit breaker and the retrier make of the
-- calls of the generated client is an argument: the response, or none for an error that is no status.
pub mod Laws
pub mod Agreement
use linktracker_eng.Prelude.{
  ℕ, Bool, List, [], ◌∷◌, map, Option, none, some, Text, Error, sentinel, wrap, Result, ok, err,
  ◌==◌, if◌then◌else◌,
}
use linktracker_eng.Scrapper.Tables.{LinkSubscription, new_link_subscription}
use linktracker_eng.Scrapper.Http.{
  Response, Body, no_body, api_error, api_error_text, link_response, list_response, LinkItem,
  status_ok, status_bad_request, status_not_found, status_conflict,
}
use linktracker_eng.Scrapper.Grpc.{
  Code, ok_code, already_exists_code, invalid_argument_code, not_found_code, unavailable_code,
  internal_code, Reply, message, status,
}
use linktracker_eng.Bot.Command.{
  BotError, already_registered, already_tracked, chat_not_found, link_not_found, bad_request,
  unavailable,
}

-- The op of a call.
pub data Operation : Type 0 where
  register track untrack add_tags_op clear_tags_op list : Operation

abbrev conflict_of : Operation → BotError
conflict_of register = already_registered
conflict_of track = already_tracked
conflict_of _ = unavailable

abbrev missing_of : Operation → BotError
missing_of register = chat_not_found
missing_of list = chat_not_found
missing_of _ = link_not_found

-- mapStatusCodes; none for nil
unfoldable pub map_status_codes : ℕ → Operation → Option BotError
map_status_codes code op =
    if code == status_ok
    then none
    else if code == status_conflict
    then some (conflict_of op)
    else if code == status_not_found
    then some (missing_of op)
    else if code == status_bad_request
    then some bad_request
    else some unavailable

abbrev as_result : Option BotError → Result BotError (Unit {0})
as_result none = ok tt
as_result (some e) = err (sentinel e)

-- fmt.Errorf("%w: %v", application.ErrUnavailable, err)
abbrev no_answer : Error BotError
no_answer = wrap "request" (sentinel unavailable)

-- RegisterChat, TrackLink, UntrackLink, AddTags and ClearTags over HTTP
unfoldable pub http_call : Operation → Option Response → Result BotError (Unit {0})
unfolding map_status_codes
http_call op none = err no_answer
http_call op (some resp) = as_result (map_status_codes resp.status op)

abbrev pub subscription_of : ℕ → LinkItem → LinkSubscription
subscription_of chat item = new_link_subscription chat item.id item.url item.tags

-- *resp.JSON200.Links; none for the panic on a body that is no list
abbrev links_in : ℕ → Body → Option (List LinkSubscription)
links_in chat (list_response items size) = some (map (subscription_of chat) items)
links_in chat _ = none

abbrev listed : ℕ → Body → Option BotError → Option (Result BotError (List LinkSubscription))
listed chat body (some e) = some (err (sentinel e))
listed chat body none = elim (links_in chat body) [ none ↦ none | some links ↦ some (ok links) ]

-- ListLinks over HTTP; none for a panic
unfoldable pub http_list : ℕ → Option Response → Option (Result BotError (List LinkSubscription))
unfolding map_status_codes new_link_subscription
http_list chat none = some (err no_answer)
http_list chat (some resp) = listed chat resp.body (map_status_codes resp.status list)

-- mapErrors, of the code of a status
unfoldable pub map_code : Code → Operation → Error BotError
map_code already_exists_code op = sentinel (conflict_of op)
map_code not_found_code op = sentinel (missing_of op)
map_code invalid_argument_code op = sentinel bad_request
map_code unavailable_code op = sentinel unavailable
map_code _ op = no_answer

-- RegisterChat, TrackLink, UntrackLink, AddTags and ClearTags over gRPC
unfoldable pub grpc_call : {A : Type 0} → Operation → Option (Reply A) → Result BotError (Unit {0})
unfolding map_code
grpc_call op none = err no_answer
grpc_call op (some (message a)) = ok tt
grpc_call op (some (status code)) = err (map_code code op)

-- ListLinks over gRPC; an id is read as it was written
unfoldable pub grpc_list :
    ℕ → Option (Reply (List LinkItem)) → Result BotError (List LinkSubscription)
unfolding map_code new_link_subscription
grpc_list chat none = err no_answer
grpc_list chat (some (message items)) = ok (map (subscription_of chat) items)
grpc_list chat (some (status code)) = err (map_code code list)
