-- ===== src/Bot/ClientTests.antt =====
-- The two transports on an empty database, and on one with a subscription.
use linktracker_eng.Prelude.{◌≡◌, refl, false, [], ◌∷◌, some, codes, sentinel, err, any_of}
use linktracker_eng.Db.{Session}
use linktracker_eng.Db.Quiet.{quiet}
use linktracker_eng.Scrapper.Tables.{Tables, empty_tables, has_user}
use linktracker_eng.Scrapper.Http
use linktracker_eng.Scrapper.Grpc
use linktracker_eng.Scrapper.Service
use linktracker_eng.Scrapper.Tests.{env, link}
use linktracker_eng.Bot.Command.{bad_request, unavailable, link_not_found, chat_not_found}
use linktracker_eng.Bot.Clients.{http_list, grpc_list}
use linktracker_eng.Bot.Clients.Laws.{
  http_tracked, grpc_tracked, http_untracked, grpc_untracked, http_tagged, grpc_tagged,
  http_cleared, grpc_cleared, unknown_chat_told,
}
use linktracker_eng.Bot.Clients.Agreement.{Tells, success_told}

abbrev s : Session Tables
s = quiet empty_tables 3

no_user : has_user 7 empty_tables.users ≡ false
unfolding has_user any_of
no_user = refl

unknown_chat_told_example :
    ((http_tracked env 5 7 link [] s ≡ err (sentinel bad_request))
      × (grpc_tracked env 5 7 link [] s ≡ err (sentinel link_not_found)))
    × ((http_untracked env 7 link s ≡ err (sentinel unavailable))
        × (grpc_untracked env 7 link s ≡ err (sentinel link_not_found)))
    × ((http_tagged env 7 link s (codes "go" ∷ []) ≡ err (sentinel unavailable))
        × (grpc_tagged env 7 link s (codes "go" ∷ []) ≡ err (sentinel link_not_found)))
    × ((http_cleared env 7 link s ≡ err (sentinel unavailable))
        × (grpc_cleared env 7 link s ≡ err (sentinel link_not_found)))
    × ((http_list 7 (some (Http.get_links 7 s).0) ≡ some (err (sentinel bad_request)))
        × (grpc_list 7 (some (Grpc.list_links 7 s).0) ≡ err (sentinel chat_not_found)))
unknown_chat_told_example = unknown_chat_told env 5 7 3 link (codes "go") [] empty_tables no_user

success_told_example :
    (Tells (http_tracked env 5 7 link [] s) (Service.subscribe env 5 link 7 [] s).0
      × Tells (grpc_tracked env 5 7 link [] s) (Service.subscribe env 5 link 7 [] s).0)
    × (Tells (http_untracked env 7 link s) (Service.unsubscribe env 7 link s).0
        × Tells (grpc_untracked env 7 link s) (Service.unsubscribe env 7 link s).0)
    × (Tells (http_tagged env 7 link s []) (Service.add_tags env 7 link [] s).0
        × Tells (grpc_tagged env 7 link s []) (Service.add_tags env 7 link [] s).0)
    × (Tells (http_cleared env 7 link s) (Service.clear_tags env 7 link s).0
        × Tells (grpc_cleared env 7 link s) (Service.clear_tags env 7 link s).0)
success_told_example = success_told env 5 7 link [] s
