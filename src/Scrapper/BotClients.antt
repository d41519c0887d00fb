-- ===== src/Scrapper/BotClients.antt =====
-- The scrapper's clients of the bot, internal/scrapper/infrastructure/http/client/client.go and
-- internal/scrapper/infrastructure/grpc/client/client.go. What the circuit breaker and the retrier make of
-- the calls is an argument: the answer, or none for an error.
pub mod Laws
use linktracker_eng.Prelude.{
  ℕ, List, Option, none, some, Text, Error, fault, send_failure, ◌==◌, if◌then◌else◌,
}
use linktracker_eng.Scrapper.Errors.{Sentinel}
use linktracker_eng.Scrapper.Tables.{ResourceShot}
use linktracker_eng.Scrapper.Http.{Response, status_ok}
use linktracker_eng.Scrapper.Grpc.{Reply, message, status}
use linktracker_eng.Bot.Servers.{LinkUpdate}

-- The request over HTTP.
abbrev pub update_of : ResourceShot → LinkUpdate
update_of shot = record {
  description = some shot.description;
  url = some shot.url;
  tg_chat_ids = some shot.chat_ids;
}

-- SendUpdate over HTTP; none where the update is sent
unfoldable pub http_send_update : Option Response → Option (Error Sentinel)
http_send_update none = some (fault send_failure)
http_send_update (some resp) = if resp.status == status_ok then none else some (fault send_failure)

-- SendUpdate over gRPC
unfoldable pub grpc_send_update : Option (Reply (Unit {0})) → Option (Error Sentinel)
grpc_send_update (some (message m)) = none
grpc_send_update _ = some (fault send_failure)
