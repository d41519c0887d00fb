-- ===== src/Scrapper/BotClientsTests.antt =====
-- An update for two chats, of which the second refuses it.
use linktracker_eng.Prelude.{◌≡◌, refl, ◌↔◌, true, false, [], ◌∷◌, ◌++◌, map, none, some, codes}
use linktracker_eng.Scrapper.Tables.{ResourceShot}
use linktracker_eng.Scrapper.BotClients.{update_of, http_send_update, grpc_send_update}
use linktracker_eng.Scrapper.BotClients.Laws.{reached, send_update_told}
use linktracker_eng.Bot.Relay.{Telegram}
use linktracker_eng.Bot.Servers.{post_updates, post_update}

abbrev shot : ResourceShot
shot = record {
  id = 9;
  url = codes "u";
  event_type = codes "gh|pr";
  description = codes "news";
  author = [];
  chat_ids = 1 ∷ 2 ∷ [];
  updated_at = 4;
}

abbrev tg : Telegram
tg = record { sent = []; faults = false ∷ true ∷ [] }

reached_one : reached shot.chat_ids tg.faults ≡ 1 ∷ []
reached_one = refl

send_update_told_example :
    let (response, tg_http) = post_updates (some (update_of shot)) tg in
    let (reply, tg_grpc) = post_update (codes "news") (codes "u") (1 ∷ 2 ∷ []) tg in
    let chats = reached (1 ∷ 2 ∷ []) (false ∷ true ∷ []) in
    let sent = tg.sent ++ map (λ c. (c, codes "news")) chats in
    (tg_http.sent ≡ sent)
    × (tg_grpc.sent ≡ sent)
    × ((http_send_update (some response) ≡ none) ↔ (chats ≡ 1 ∷ 2 ∷ []))
    × ((grpc_send_update (some reply) ≡ none) ↔ (chats ≡ 1 ∷ 2 ∷ []))
send_update_told_example = send_update_told shot tg refl refl refl
