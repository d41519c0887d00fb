-- ===== src/Agent/Consumer.antt =====
-- internal/agent/infrastructure/kafka/consumer: consumer.go and tools.go. The topic is the list of
-- the messages that FetchMessage returns before it fails; the registry of the schemas and
-- `time.Parse(time.RFC3339, …)` are arguments. The headers that sendDLQ adds are left out.
pub mod Laws
pub mod Decoding
use linktracker_eng.Prelude.{
  ℕ, Bool, List, [], ◌∷◌, ◌++◌, Option, none, some, Text, codes, if◌then◌else◌, Error, sentinel,
  fault, wrap, send_failure, read_failure, Result, ok, err, is_error,
}
use linktracker_eng.Db.{Session, failing, later}
use linktracker_eng.Wire.{
  Message, Codec, Native, fields, no_record, field, as_long, as_string, as_array, longs,
  decode_value, ◌>>=◌,
}
use linktracker_eng.Agent.Updates.{RawUpdate, Invalid, validate}
use linktracker_eng.Agent.Tables.{AgentError, same_agent_error, duplicate_msg, bad_message, Tables}
use linktracker_eng.Agent.Inbox.{add_record}

module _ (parse_time : Text → Option ℕ) where
  -- mapAvroMsg; every failure is none
  unfoldable pub map_avro_msg : Native → Option RawUpdate
  unfolding field longs
  map_avro_msg no_record = none
  map_avro_msg (fields data_) = do
    id ← as_long (field (codes "id") data_)
    url ← as_string (field (codes "url") data_)
    description ← as_string (field (codes "description") data_)
    author ← as_string (field (codes "author") data_)
    event_type ← as_string (field (codes "event_type") data_)
    upd_str ← as_string (field (codes "updated_at") data_)
    updated_at ← parse_time upd_str
    tg_chat_ids ← as_array (field (codes "chat_ids") data_)
    chat_ids ← longs tg_chat_ids
    some (record {
      id = id;
      link = url;
      event_type = event_type;
      description = description;
      author = author;
      chat_ids = chat_ids;
      updated_at = updated_at;
    })

  abbrev pub or_bad : Option RawUpdate → Result AgentError RawUpdate
  or_bad none = err (sentinel bad_message)
  or_bad (some raw) = ok raw

  -- decodeMessage
  unfoldable pub decode_message : (ℕ → Option Codec) → Message → Result AgentError RawUpdate
  unfolding map_avro_msg decode_value
  decode_message get_schema msg = or_bad (decode_value get_schema msg.value >>= map_avro_msg)

-- The database, the dead letters, the committed messages, and which writes and commits fail.
pub record Consumer : Type 0 where
  pub session : Session Tables
  pub dlq : List Message
  pub dlq_faults : List Bool
  pub committed : List Message
  pub commit_faults : List Bool

abbrev pub Outcome : Type 0
Outcome = Result AgentError (Unit {0}) × Consumer

-- handleFailure, with sendDLQ
unfoldable pub handle_failure : Message → Consumer → Outcome
handle_failure msg c =
    if failing c.dlq_faults
    then (
      err (wrap "send msg to dlq" (wrap "write dlq msg" (fault send_failure))),
      record c { dlq_faults = later c.dlq_faults },
    )
    else (ok tt, record c { dlq = c.dlq ++ msg ∷ []; dlq_faults = later c.dlq_faults })

-- CommitMessages, and the next round of the loop
unfoldable pub commit_message : Message → Consumer → (Consumer → Outcome) → Outcome
commit_message msg c rest =
    if failing c.commit_faults
    then (
      err (wrap "commit msg" (fault send_failure)),
      record c { commit_faults = later c.commit_faults },
    )
    else rest
        (record c { committed = c.committed ++ msg ∷ []; commit_faults = later c.commit_faults })

module _ (decode : Message → Result AgentError RawUpdate) where
  abbrev pub stored :
      Message → Result AgentError (Unit {0}) → Consumer → (Consumer → Outcome) → Outcome
  stored msg (ok _) c rest = commit_message msg c rest
  stored msg (err e) c rest =
      if is_error same_agent_error e duplicate_msg
      then commit_message msg c rest
      else handle_failure msg c

  abbrev pub add_valid :
      Message → RawUpdate → Option Invalid → Consumer → (Consumer → Outcome) → Outcome
  add_valid msg raw (some e) c rest = handle_failure msg c
  add_valid msg raw none c rest =
      let (r, session) = add_record raw c.session in
      stored msg r (record c { session = session }) rest

  abbrev pub decoded :
      Message → Result AgentError RawUpdate → Consumer → (Consumer → Outcome) → Outcome
  decoded msg (err e) c rest = handle_failure msg c
  decoded msg (ok raw) c rest = add_valid msg raw (validate (some raw)) c rest

  -- Consume
  unfoldable pub consume : List Message → Consumer → Outcome
  unfolding add_record handle_failure commit_message validate is_error
  consume [] c = (err (wrap "read msg from kafka" (fault read_failure)), c)
  consume (msg ∷ msgs) c = decoded msg (decode msg) c (consume msgs)
