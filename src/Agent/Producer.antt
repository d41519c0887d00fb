-- ===== src/Agent/Producer.antt =====
-- internal/agent/infrastructure/kafka/producer/producer.go: a delivery as a message for the bot.
-- `key` is what uuid.New() returns, and `write` is what the writer of the topic answers.
use linktracker_eng.Prelude.{
  ℕ, [], ◌∷◌, map, Option, none, some, Text, codes, Error, fault, wrap, send_failure,
}
use linktracker_eng.Wire.{Message, Codec, Native, fields, scalar, array, long, string, message}
use linktracker_eng.Agent.Filter.{Priority, high, medium, low, no_priority}
use linktracker_eng.Agent.Updates.{ProcessedUpdate}
use linktracker_eng.Agent.Tables.{AgentError}

-- string(update.Priority)
abbrev pub priority_text : Priority → Text
priority_text high = codes "HIGH"
priority_text medium = codes "MEDIUM"
priority_text low = codes "LOW"
priority_text no_priority = []

-- mapResourceShotToAvro
unfoldable pub map_resource_shot_to_avro : ProcessedUpdate → Native
map_resource_shot_to_avro u = fields (
    (codes "id", scalar (long u.id))
    ∷ (codes "url", scalar (string u.link))
    ∷ (codes "description", scalar (string u.description))
    ∷ (codes "chat_ids", array (map long u.chat_ids))
    ∷ (codes "priority", scalar (string (priority_text u.priority)))
    ∷ [])

abbrev failure_of : Option (Error AgentError) → Option (Error AgentError)
failure_of none = none
failure_of (some e) = some (wrap "send update to kafka" e)

abbrev pub written :
    (Message → Option (Error AgentError)) → Option Message → Option (Error AgentError)
written write none = some (wrap "avro encoding" (fault send_failure))
written write (some msg) = failure_of (write msg)

-- Publish
unfoldable pub publish :
    Codec
    → ℕ
    → Text
    → (Message → Option (Error AgentError))
    → ProcessedUpdate
    → Option (Error AgentError)
unfolding message map_resource_shot_to_avro
publish codec id key write u = written write (message codec id key (map_resource_shot_to_avro u))
