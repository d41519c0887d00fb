-- ===== src/Bot/Clients/Laws.antt =====
-- The two transports, from the use case to what the bot is told.
use linktracker_eng.Prelude.{
  ℕ, ◌≡◌, refl, ◌∙◌, false, List, [], ◌∷◌, Option, some, Text, sentinel, Result, err, is_error,
}
use linktracker_eng.Exec.{raise}
use linktracker_eng.Exec.Steps.{bind_ok, bind_err, or_return_err}
use linktracker_eng.Db.{Session}
use linktracker_eng.Db.Quiet.{quiet, live, statement_ok, with_transaction_err}
use linktracker_eng.Scrapper.Errors.{not_found, is}
use linktracker_eng.Scrapper.Tables.{Tables, has_user}
use linktracker_eng.Scrapper.Repo.Users
use linktracker_eng.Scrapper.Service
use linktracker_eng.Scrapper.Service.Bodies.{Env, ensure_client_exists}
use linktracker_eng.Scrapper.Http
use linktracker_eng.Scrapper.Http.{LinkRequest}
use linktracker_eng.Scrapper.Grpc
use linktracker_eng.Bot.Command.{BotError, bad_request, unavailable, link_not_found, chat_not_found}
use linktracker_eng.Bot.Clients.{
  track, untrack, add_tags_op, clear_tags_op, http_call, http_list, grpc_call, grpc_list,
}

module _ (client now : ℕ) (t : Tables) (unknown : has_user client t.users ≡ false) where
  get_client_unknown :
      Users.get_client_by_id client (live t now) ≡ (err (sentinel not_found), live t now)
  unfolding Users.get_client_by_id raise
  get_client_unknown = bind_ok _ _ (statement_ok (Users.select_user client) refl) ∙ rw unknown refl

  ensure_unknown : ensure_client_exists client (live t now) ≡ (err (sentinel not_found), live t now)
  unfolding ensure_client_exists is_error is
  ensure_unknown = bind_err _ _ (or_return_err _ _ get_client_unknown)

  module _ (env : Env) (link : Text) where
    subscribe_unknown :
        (new_id : ℕ) (tags : List Text)
        → (Service.subscribe env new_id link client tags (quiet t now)).0 ≡ err (sentinel not_found)
    unfolding Service.subscribe
    subscribe_unknown new_id tags = with_transaction_err _ (bind_err _ _ ensure_unknown)

    unsubscribe_unknown :
        (Service.unsubscribe env client link (quiet t now)).0 ≡ err (sentinel not_found)
    unfolding Service.unsubscribe
    unsubscribe_unknown = with_transaction_err _ (bind_err _ _ ensure_unknown)

    clear_tags_unknown :
        (Service.clear_tags env client link (quiet t now)).0 ≡ err (sentinel not_found)
    unfolding Service.clear_tags
    clear_tags_unknown = with_transaction_err _ (bind_err _ _ ensure_unknown)

    add_tags_unknown :
        (tag : Text) (tags : List Text)
        → (Service.add_tags env client link (tag ∷ tags) (quiet t now)).0 ≡ err (sentinel not_found)
    unfolding Service.add_tags
    add_tags_unknown tag tags = with_transaction_err _ (bind_err _ _ ensure_unknown)

  get_links_unknown : (Service.get_links client (quiet t now)).0 ≡ err (sentinel not_found)
  unfolding Service.get_links
  get_links_unknown = with_transaction_err _ (bind_err _ _ ensure_unknown)

-- What the bot is told over HTTP, and over gRPC, if the transport works.
abbrev request_of : Text → List Text → Option LinkRequest
request_of link tags = some (record { link = some link; tags = some tags })

module _ (env : Env) (new_id chat : ℕ) (link : Text) (tags : List Text) (s : Session Tables) where
  abbrev pub http_tracked : Result BotError (Unit {0})
  http_tracked = http_call track (some (Http.post_links env new_id chat (request_of link tags) s).0)

  abbrev pub grpc_tracked : Result BotError (Unit {0})
  grpc_tracked = grpc_call track (some (Grpc.track_link env new_id chat link tags s).0)

module _ (env : Env) (chat : ℕ) (link : Text) (s : Session Tables) where
  abbrev pub http_untracked : Result BotError (Unit {0})
  http_untracked = http_call untrack (some (Http.delete_links env chat (request_of link []) s).0)

  abbrev pub grpc_untracked : Result BotError (Unit {0})
  grpc_untracked = grpc_call untrack (some (Grpc.untrack_link env chat link s).0)

  abbrev pub http_tagged : List Text → Result BotError (Unit {0})
  http_tagged tags =
      http_call add_tags_op (some (Http.post_tags env chat (request_of link tags) s).0)

  abbrev pub grpc_tagged : List Text → Result BotError (Unit {0})
  grpc_tagged tags = grpc_call add_tags_op (some (Grpc.add_tags env chat link tags s).0)

  abbrev pub http_cleared : Result BotError (Unit {0})
  http_cleared = http_call clear_tags_op (some (Http.delete_tags env chat (request_of link []) s).0)

  abbrev pub grpc_cleared : Result BotError (Unit {0})
  grpc_cleared = grpc_call clear_tags_op (some (Grpc.clear_tags env chat link s).0)

-- What a chat that is not registered is told, by the transport: over HTTP its /track and /list are bad
-- requests, and the scrapper is unavailable for its other commands; over gRPC a link is not found, and
-- only /list says that the chat is not. The database has no failures.
pub unknown_chat_told :
    (env : Env) (new_id chat now : ℕ) (link tag : Text) (tags : List Text) (t : Tables)
    → has_user chat t.users ≡ false
    → let s = quiet t now in
      ((http_tracked env new_id chat link tags s ≡ err (sentinel bad_request))
        × (grpc_tracked env new_id chat link tags s ≡ err (sentinel link_not_found)))
      × ((http_untracked env chat link s ≡ err (sentinel unavailable))
          × (grpc_untracked env chat link s ≡ err (sentinel link_not_found)))
      × ((http_tagged env chat link s (tag ∷ tags) ≡ err (sentinel unavailable))
          × (grpc_tagged env chat link s (tag ∷ tags) ≡ err (sentinel link_not_found)))
      × ((http_cleared env chat link s ≡ err (sentinel unavailable))
          × (grpc_cleared env chat link s ≡ err (sentinel link_not_found)))
      × ((http_list chat (some (Http.get_links chat s).0) ≡ some (err (sentinel bad_request)))
          × (grpc_list chat (some (Grpc.list_links chat s).0) ≡ err (sentinel chat_not_found)))
unfolding http_call http_list grpc_call grpc_list Http.post_links Http.delete_links Http.post_tags
    Http.delete_tags Http.get_links Grpc.track_link Grpc.untrack_link Grpc.add_tags Grpc.clear_tags
    Grpc.list_links is_error
unknown_chat_told env new_id chat now link tag tags t h =
    let tracked = subscribe_unknown chat now t h env link new_id tags in
    let untracked = unsubscribe_unknown chat now t h env link in
    let tagged = add_tags_unknown chat now t h env link tag tags in
    let cleared = clear_tags_unknown chat now t h env link in
    let got = get_links_unknown chat now t h in
    (
      (rw tracked refl, rw tracked refl),
      (rw untracked refl, rw untracked refl),
      (rw tagged refl, rw tagged refl),
      (rw cleared refl, rw cleared refl),
      (rw got refl, rw got refl),
    )
