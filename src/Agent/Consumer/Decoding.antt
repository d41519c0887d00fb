-- ===== src/Agent/Consumer/Decoding.antt =====
-- What the scrapper's producer sends is what the agent's consumer decodes.
use linktracker_eng.Prelude.{ℕ, ◌^◌, ◌<◌, ◌≡◌, refl, Option, some, Text, ok, text_eq}
use linktracker_eng.Wire.{Message, Codec, message, field}
use linktracker_eng.Wire.Laws.{Reads, decode_value-message, longs-map}
use linktracker_eng.Scrapper.Tables.{ResourceShot}
use linktracker_eng.Scrapper.Producer.{map_resource_shot_to_avro}
use linktracker_eng.Agent.Updates.{RawUpdate}
use linktracker_eng.Agent.Consumer.{map_avro_msg, decode_message}

-- The update that is to be read for a shot.
abbrev pub raw_of : ResourceShot → ℕ → RawUpdate
raw_of shot at = record {
  id = shot.id;
  link = shot.url;
  event_type = shot.event_type;
  description = shot.description;
  author = shot.author;
  chat_ids = shot.chat_ids;
  updated_at = at;
}

map_avro_msg-map_resource_shot_to_avro :
    (format_time : ℕ → Text) (parse_time : Text → Option ℕ) (shot : ResourceShot) (at : ℕ)
    → parse_time (format_time shot.updated_at) ≡ some at
    → map_avro_msg parse_time (map_resource_shot_to_avro format_time shot) ≡ some (raw_of shot at)
unfolding map_avro_msg map_resource_shot_to_avro field text_eq
map_avro_msg-map_resource_shot_to_avro format_time parse_time shot at h =
    rw (h, longs-map shot.chat_ids) refl

-- The agent reads the update of the shot that the scrapper sent: the same id, link, texts and chats, and
-- the time that its RFC 3339 text stands for. The codec reads what it has written, and the registry knows
-- the schema under its id, which is below 2 ^ 32.
pub decode_message-message :
    (get_schema : ℕ → Option Codec) (codec : Codec) (id : ℕ) (key : Text) (format_time : ℕ → Text)
    (parse_time : Text → Option ℕ) (shot : ResourceShot) (at : ℕ) (msg : Message)
    → Reads codec
    → id < 2 ^ 32
    → get_schema id ≡ some codec
    → parse_time (format_time shot.updated_at) ≡ some at
    → message codec id key (map_resource_shot_to_avro format_time shot) ≡ some msg
    → decode_message parse_time get_schema msg ≡ ok (raw_of shot at)
unfolding decode_message
decode_message-message get_schema codec id key format_time parse_time shot at msg reads small known
      time sent =
    let native = map_resource_shot_to_avro format_time shot in
    rw
      (
        decode_value-message get_schema codec id key native msg reads small known sent,
        map_avro_msg-map_resource_shot_to_avro format_time parse_time shot at time,
      )
      refl
