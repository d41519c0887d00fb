-- ===== src/Bot/Servers.antt =====
-- The bot's servers for updates, internal/bot/infrastructure/http/server/server.go and
-- internal/bot/infrastructure/grpc/server/server.go. Telegram fails where its script says so.
use linktracker_eng.Prelude.{
  ℕ, suc, ◌||◌, List, [], ◌∷◌, ◌++◌, Option, none, some, Text, if◌then◌else◌, is_nil, ltb,
}
use linktracker_eng.Db.{failing, later}
use linktracker_eng.Scrapper.Http.{
  Response, answer, no_body, write_err, status_bad_request, status_internal,
}
use linktracker_eng.Scrapper.Grpc.{Reply, message, status, invalid_argument_code, internal_code}
use linktracker_eng.Bot.Relay.{Telegram}

-- bothttp.LinkUpdate, as far as the server reads it; none for nil
pub record LinkUpdate : Type 0 where
  pub description : Option Text
  pub url : Option Text
  pub tg_chat_ids : Option (List ℕ)

-- One SendMessage.
abbrev pub send_message : ℕ → Text → Telegram → Telegram
send_message chat text tg =
    if failing tg.faults
    then record tg { faults = later tg.faults }
    else record { sent = tg.sent ++ (chat, text) ∷ []; faults = later tg.faults }

-- The loop over the chats, with the number of those that it could not send to.
unfoldable pub send_all : Text → List ℕ → ℕ → Telegram → ℕ × Telegram
send_all text [] unsent tg = (unsent, tg)
send_all text (chat ∷ chats) unsent tg =
    send_all text chats (if failing tg.faults then suc unsent else unsent)
      (send_message chat text tg)

abbrev pub sent_answer : ℕ → Response
sent_answer unsent =
    if ltb 0 unsent
    then write_err status_internal "StatusInternalServerError" "deliver update to chats"
    else answer no_body

abbrev with_params : Option Text → Option Text → Option (List ℕ) → Telegram → Response × Telegram
with_params (some text) (some url) (some chats) tg =
    let (unsent, tg') = send_all text chats 0 tg in (sent_answer unsent, tg')
with_params _ _ _ tg =
    (write_err status_bad_request "StatusBadRequest" "invalid request body params", tg)

-- PostUpdates, of the decoded body
unfoldable pub post_updates : Option LinkUpdate → Telegram → Response × Telegram
unfolding send_all
post_updates none tg = (write_err status_bad_request "StatusBadRequest" "invalid request body", tg)
post_updates (some req) tg = with_params req.description req.url req.tg_chat_ids tg

abbrev pub sent_reply : ℕ → Reply (Unit {0})
sent_reply unsent = if ltb 0 unsent then status internal_code else message tt

-- PostUpdate, of the description, the url and the chats
unfoldable pub post_update : Text → Text → List ℕ → Telegram → Reply (Unit {0}) × Telegram
unfolding send_all
post_update text url chats tg =
    let (unsent, tg') = send_all text chats 0 tg in
    if is_nil text || is_nil url || is_nil chats
    then (status invalid_argument_code, tg)
    else (sent_reply unsent, tg')
