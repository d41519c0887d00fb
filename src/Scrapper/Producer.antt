-- ===== src/Scrapper/Producer.antt =====
-- internal/scrapper/infrastructure/kafka/producer.go: a shot as a message for the agent. `key` is what
-- uuid.New() returns, and `write` is what the writer of the topic answers to a message.
use linktracker_eng.Prelude.{
  ℕ, [], ◌∷◌, map, Option, none, some, Text, codes, Error, fault, wrap, send_failure,
}
use linktracker_eng.Scrapper.Errors.{Sentinel}
use linktracker_eng.Scrapper.Tables.{ResourceShot}
use linktracker_eng.Scrapper.Relay.{Transport}
use linktracker_eng.Wire.{Message, Codec, Native, fields, scalar, array, long, string, message}

-- mapResourceShotToAvro; `format_time` is `Format(time.RFC3339)`
unfoldable pub map_resource_shot_to_avro : (ℕ → Text) → ResourceShot → Native
map_resource_shot_to_avro format_time shot = fields (
    (codes "id", scalar (long shot.id))
    ∷ (codes "url", scalar (string shot.url))
    ∷ (codes "event_type", scalar (string shot.event_type))
    ∷ (codes "description", scalar (string shot.description))
    ∷ (codes "author", scalar (string shot.author))
    ∷ (codes "chat_ids", array (map long shot.chat_ids))
    ∷ (codes "updated_at", scalar (string (format_time shot.updated_at)))
    ∷ [])

abbrev pub written : (Message → Option (Error Sentinel)) → Option Message → Option (Error Sentinel)
written write none = some (wrap "avro encoding" (fault send_failure))
written write (some msg) = map_failure (write msg)
  where
    map_failure : Option (Error Sentinel) → Option (Error Sentinel)
    map_failure none = none
    map_failure (some e) = some (wrap "send update to kafka" e)

-- SendUpdate
unfoldable pub send_update :
    Codec → ℕ → Text → (ℕ → Text) → (Message → Option (Error Sentinel)) → Transport
unfolding message map_resource_shot_to_avro
send_update codec id key format_time write shot =
    written write (message codec id key (map_resource_shot_to_avro format_time shot))
