-- ===== src/Agent/QueueTests.antt =====
-- The agent's consumer, jobs and messages on concrete values.
use linktracker_eng.Prelude.{
  ℕ, ◌≡◌, refl, List, [], ◌∷◌, ◌++◌, Option, none, some, Text, codes, sentinel, Result, ok, err,
  if◌then◌else◌, map, is_nil, any_of, keep, sort, arith, text_eq, fault, send_failure,
}
use linktracker_eng.Db.Quiet.{quiet}
use linktracker_eng.Wire.{Message, Codec, message, payload}
use linktracker_eng.Wire.Samples.{codec_of, codec_of-Reads, native_eq}
use linktracker_eng.Scrapper.Tables.{ResourceShot}
use linktracker_eng.Scrapper.Producer
use linktracker_eng.Agent.Updates.{RawUpdate, ProcessedUpdate}
use linktracker_eng.Agent.Filter.{low, new_filtering_policy}
use linktracker_eng.Agent.Tables.{AgentError, bad_message, Tables}
use linktracker_eng.Agent.Inbox
use linktracker_eng.Agent.Inbox.{inbox_row}
use linktracker_eng.Agent.Outbox
use linktracker_eng.Agent.Tests.{ascii, config}
use linktracker_eng.Agent.Window.{Env, process_updates}
use linktracker_eng.Agent.Window.Rounds.{mentions}
use linktracker_eng.Agent.Window.Batches.{updates_for}
use linktracker_eng.Agent.Consumer.{consume, decode_message}
use linktracker_eng.Agent.Consumer.Laws.{
  idle, consume_lem, consume_blocked, restarted, ended, back, front, with_rows,
}
use linktracker_eng.Agent.Consumer.Decoding.{raw_of, decode_message-message}
use linktracker_eng.Agent.Relay.{Publisher, relay_outbox, relay_inbox}
use linktracker_eng.Agent.Relay.Laws.{judged, relay_outbox_by_id, relay_inbox_once}

abbrev shot : ResourceShot
shot = record {
  id = 4;
  url = codes "u";
  event_type = codes "gh|pr";
  description = codes "d";
  author = codes "a";
  chat_ids = 7 ∷ 8 ∷ [];
  updated_at = 20;
}

abbrev format_time : ℕ → Text
format_time n = codes "t"

abbrev parse_time : Text → Option ℕ
parse_time s = some 20

abbrev codec : Codec
codec = codec_of (Producer.map_resource_shot_to_avro format_time shot)

abbrev sent : Message
sent = record { headers = (codes "idempotency-key", codes "k") ∷ []; value = payload 3 [] }

sent_run :
    message codec 3 (codes "k") (Producer.map_resource_shot_to_avro format_time shot) ≡ some sent
unfolding message native_eq Producer.map_resource_shot_to_avro
sent_run = refl

decode_message-message_example :
    decode_message parse_time (λ id. some codec) sent ≡ ok (raw_of shot 20)
decode_message-message_example =
    decode_message-message (λ id. some codec) codec 3 (codes "k") format_time parse_time shot 20
      sent (codec_of-Reads (Producer.map_resource_shot_to_avro format_time shot)) (ground arith)
      refl refl sent_run

abbrev empty_tables : Tables
empty_tables = record { inbox = []; outbox = [] }

abbrev refuse : Message → Result AgentError RawUpdate
refuse msg = err (sentinel bad_message)

consume_blocked_example :
    restarted refuse 2 (sent ∷ sent ∷ []) (idle empty_tables 1 [] [])
    ≡ idle empty_tables 1 (sent ∷ sent ∷ []) []
consume_blocked_example = consume_blocked refuse sent (sent ∷ []) empty_tables 1 2 [] [] refl

abbrev read : Message → Result AgentError RawUpdate
read msg = ok (raw_of shot 20)

consume_lem_example :
    consume read (sent ∷ sent ∷ []) (idle empty_tables 1 [] [])
    ≡ ended read
        (back read (sent ∷ sent ∷ []))
        1
        (with_rows read (front read (sent ∷ sent ∷ [])) 1 empty_tables)
        []
        ([] ++ front read (sent ∷ sent ∷ []))
consume_lem_example = consume_lem read (sent ∷ sent ∷ []) empty_tables 1 [] []

-- Two deliveries of one update, of which the first one cannot be published.
abbrev delivery : Text → ProcessedUpdate
delivery text = record { id = 4; link = []; description = text; chat_ids = 7 ∷ []; priority = low }

abbrev two_rows : Tables
two_rows = record {
  inbox = [];
  outbox =
      Outbox.outbox_row 1 (delivery (codes "a")) ∷ Outbox.outbox_row 1 (delivery (codes "b")) ∷ [];
}

abbrev only_b : Publisher
only_b u = if text_eq u.description (codes "b") then none else some (fault send_failure)

relay_outbox_by_id_example : relay_outbox only_b 10 (quiet two_rows 5) ≡ (
  ok tt,
  quiet
      (record two_rows {
        outbox = map (judged only_b 5 (Outbox.pending 10 two_rows.outbox)) two_rows.outbox;
      })
      5,
)
relay_outbox_by_id_example = relay_outbox_by_id only_b 10 5 two_rows

-- Both rows count as processed.
both_processed :
    map
      (λ r. r.processed_at)
      (map (judged only_b 5 (Outbox.pending 10 two_rows.outbox)) two_rows.outbox)
    ≡ some 5 ∷ some 5 ∷ []
unfolding any_of keep sort text_eq
both_processed = refl

abbrev env : Env
env = record {
  unicode = ascii;
  policy = new_filtering_policy ascii config;
  encoded = λ c. [];
  format_time = format_time;
  summarizer = λ s. ok s;
}

abbrev one_pending : Tables
one_pending = record { inbox = inbox_row (raw_of shot 20) 1 ∷ []; outbox = [] }

one_pending_fetched : Inbox.pending 30 one_pending.inbox ≡ raw_of shot 20 ∷ []
unfolding keep sort
one_pending_fetched = refl

relay_inbox_once_example :
    (ds : List ProcessedUpdate) × ((c : ℕ)
      → mentions c ds
        ≡ (if is_nil (updates_for c (process_updates env (raw_of shot 20 ∷ []))) then 0 else 1))
    × (relay_inbox env (λ us. us) (λ ks. ks) (λ ks. ks) 30 (quiet one_pending 5) ≡ (
      ok tt,
      quiet
          (record one_pending {
            inbox = Inbox.mark_rows (raw_of shot 20 ∷ []) one_pending.inbox;
            outbox = one_pending.outbox ++ map (Outbox.outbox_row 5) ds;
          })
          5,
    ))
relay_inbox_once_example =
    relay_inbox_once env (λ us. us) (λ ks. ks) (λ ks. ks) 30 5 one_pending (raw_of shot 20) []
      (λ c ks. refl) (λ c ks. refl) one_pending_fetched
