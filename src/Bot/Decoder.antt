-- ===== src/Bot/Decoder.antt =====
-- mapAvroMsg of internal/bot/infrastructure/kafka/dto.go and decodeMessage of its consumer.go. The
-- registry of the schemas is an argument.
use linktracker_eng.Prelude.{
  ℕ, ◌^◌, ◌<◌, ◌≡◌, refl, Option, none, some, Text, codes, sentinel, Result, ok, err, text_eq,
}
use linktracker_eng.Wire.{
  Message, Codec, Native, fields, no_record, field, as_long, as_string, as_array, longs,
  decode_value, message, ◌>>=◌,
}
use linktracker_eng.Wire.Laws.{Reads, decode_value-message, longs-map}
use linktracker_eng.Agent.Updates.{ProcessedUpdate}
use linktracker_eng.Agent.Producer.{map_resource_shot_to_avro}
use linktracker_eng.Bot.Inbox.{InboxError, Update, bad_message}

-- mapAvroMsg; every failure is none
unfoldable pub map_avro_msg : Native → Option Update
unfolding field longs
map_avro_msg no_record = none
map_avro_msg (fields data_) = do
  id ← as_long (field (codes "id") data_)
  url ← as_string (field (codes "url") data_)
  description ← as_string (field (codes "description") data_)
  tg_chat_ids ← as_array (field (codes "chat_ids") data_)
  chat_ids ← longs tg_chat_ids
  some (record { id = id; url = url; description = description; chat_ids = chat_ids })

abbrev pub or_bad : Option Update → Result InboxError Update
or_bad none = err (sentinel bad_message)
or_bad (some u) = ok u

-- decodeMessage
unfoldable pub decode_message : (ℕ → Option Codec) → Message → Result InboxError Update
unfolding map_avro_msg decode_value
decode_message get_schema msg = or_bad (decode_value get_schema msg.value >>= map_avro_msg)

-- The update that is to be read for a delivery: all of it but the priority.
abbrev pub update_of : ProcessedUpdate → Update
update_of u = record { id = u.id; url = u.link; description = u.description; chat_ids = u.chat_ids }

map_avro_msg-map_resource_shot_to_avro :
    (u : ProcessedUpdate) → map_avro_msg (map_resource_shot_to_avro u) ≡ some (update_of u)
unfolding map_avro_msg map_resource_shot_to_avro field text_eq
map_avro_msg-map_resource_shot_to_avro u = rw (longs-map u.chat_ids) refl

-- The bot reads the delivery that the agent published, without its priority. The codec reads what it
-- has written, and the registry knows the schema under its id, which is below 2 ^ 32.
pub decode_message-published :
    (get_schema : ℕ → Option Codec) (codec : Codec) (id : ℕ) (key : Text) (u : ProcessedUpdate)
    (msg : Message)
    → Reads codec
    → id < 2 ^ 32
    → get_schema id ≡ some codec
    → message codec id key (map_resource_shot_to_avro u) ≡ some msg
    → decode_message get_schema msg ≡ ok (update_of u)
unfolding decode_message
decode_message-published get_schema codec id key u msg reads small known sent =
    rw
      (
        decode_value-message get_schema codec id key (map_resource_shot_to_avro u) msg reads small
            known sent,
        map_avro_msg-map_resource_shot_to_avro u,
      )
      refl
