-- ===== src/Bot/InboxTests.antt =====
-- The theorems about the bot's inbox on two messages with one key, and on an update for two chats.
use linktracker_eng.Prelude.{
  ◌≡◌, refl, true, false, [], ◌∷◌, ◌++◌, codes, Result, ok, none, some, arith,
}
use linktracker_eng.Db.Quiet.{quiet}
use linktracker_eng.Bot.Inbox.{InboxError, Update, Inbox, mark_rows}
use linktracker_eng.Wire
use linktracker_eng.Wire.{Message, Codec, payload}
use linktracker_eng.Wire.Samples.{codec_of, codec_of-Reads, native_eq}
use linktracker_eng.Agent.Filter.{high}
use linktracker_eng.Agent.Updates.{ProcessedUpdate}
use linktracker_eng.Agent.Producer.{map_resource_shot_to_avro}
use linktracker_eng.Bot.Decoder.{decode_message, decode_message-published, update_of}
use linktracker_eng.Bot.Consumer.{Consumer, validate_update, post_updates}
use linktracker_eng.Bot.Consumer.Laws.{idle, inbox_of, dead_of, post_updates_lem}
use linktracker_eng.Bot.Relay.{Telegram, relay_inbox, send_telegram, pending, relay_inbox_lem}

abbrev update : Update
update = record { id = 3; url = []; description = codes "new"; chat_ids = 1 ∷ 2 ∷ [] }

abbrev decode : Message → Result InboxError Update
decode msg = ok update

abbrev message : Message
message = record { headers = (codes "idempotency-key", codes "k1") ∷ []; value = [] }

post_updates_lem_example : post_updates decode (message ∷ message ∷ []) (idle [] 1 [] []) ≡ (
  ok tt,
  idle
      (inbox_of decode 1 (message ∷ message ∷ []) [])
      1
      ([] ++ dead_of decode 1 (message ∷ message ∷ []))
      ([] ++ message ∷ message ∷ []),
)
post_updates_lem_example = post_updates_lem decode 1 (message ∷ message ∷ []) [] [] []

abbrev disconnected : Consumer
disconnected = record {
  session = record { tables = []; in_tx = false; aborted = false; faults = true ∷ []; now = 1 };
  dlq = [];
  dlq_faults = [];
  committed = [];
}

update_valid : validate_update (some update) ≡ none
unfolding validate_update
update_valid = refl

-- Telegram refuses the first message.
abbrev refusing : Telegram
refusing = record { sent = []; faults = true ∷ [] }

abbrev one_row : Inbox
one_row = record { key = codes "k1"; update = update; processed = false; created_at = 0 } ∷ []

relay_inbox_lem_example : relay_inbox 10 refusing (quiet one_row 1) ≡ (
  ok (send_telegram (pending 10 one_row) refusing).1,
  quiet (mark_rows (pending 10 one_row) one_row) 1,
)
relay_inbox_lem_example = relay_inbox_lem 10 1 refusing one_row

abbrev delivery : ProcessedUpdate
delivery = record {
  id = 3;
  link = codes "u";
  description = codes "d";
  chat_ids = 1 ∷ [];
  priority = high;
}

abbrev codec : Codec
codec = codec_of (map_resource_shot_to_avro delivery)

abbrev published : Message
published = record { headers = (codes "idempotency-key", codes "k") ∷ []; value = payload 3 [] }

published_run :
    Wire.message codec 3 (codes "k") (map_resource_shot_to_avro delivery) ≡ some published
unfolding Wire.message native_eq map_resource_shot_to_avro
published_run = refl

decode_message-published_example :
    decode_message (λ id. some codec) published ≡ ok (update_of delivery)
decode_message-published_example =
    decode_message-published (λ id. some codec) codec 3 (codes "k") delivery published
      (codec_of-Reads (map_resource_shot_to_avro delivery)) (ground arith) refl published_run
