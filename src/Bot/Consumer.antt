-- ===== src/Bot/Consumer.antt =====
-- processMessage and PostUpdates of internal/bot/infrastructure/kafka/consumer.go. The decoder (Avro,
-- the schema registry) is an argument. The topic is the list of the messages that FetchMessage
-- returns, until the context is done.
pub mod Laws
use linktracker_eng.Prelude.{
  ℕ, Bool, true, false, List, [], ◌∷◌, ◌++◌, Option, none, some, Text, codes, text_eq, is_nil,
  if◌then◌else◌, Error, sentinel, fault, wrap, send_failure, Result, ok, err, is_error,
}
use linktracker_eng.Db.{Session, failing, later}
use linktracker_eng.Wire.{Message}
use linktracker_eng.Bot.Inbox.{
  InboxError, same_inbox_error, duplicate_msg, nil_update, empty_chat_ids, Update, InboxRecord,
  Inbox, add_record,
}

-- The database, the dead letters, the failures of writing these, and the committed messages.
pub record Consumer : Type 0 where
  pub session : Session Inbox
  pub dlq : List Message
  pub dlq_faults : List Bool
  pub committed : List Message

abbrev pub Outcome : Type 0
Outcome = Result InboxError (Unit {0}) × Consumer

-- validateUpdate
unfoldable pub validate_update : Option Update → Option InboxError
validate_update none = some nil_update
validate_update (some u) = if is_nil u.chat_ids then some empty_chat_ids else none

-- findIdempKey
unfoldable pub find_idemp_key : List (Text × Text) → Text
find_idemp_key [] = []
find_idemp_key ((k, v) ∷ rest) =
    let found = find_idemp_key rest in if text_eq k (codes "idempotency-key") then v else found

-- sendDLQ, but for the headers that it adds
unfoldable pub send_dlq : Message → Consumer → Outcome
send_dlq msg c =
    if failing c.dlq_faults
    then (
      err (wrap "write dlq msg" (fault send_failure)),
      record c { dlq_faults = later c.dlq_faults },
    )
    else (ok tt, record c { dlq = c.dlq ++ msg ∷ []; dlq_faults = later c.dlq_faults })

module _ (decode : Message → Result InboxError Update) where
  abbrev stored : Message → Result InboxError (Unit {0}) → Consumer → Outcome
  stored msg (ok _) c = (ok tt, c)
  stored msg (err e) c =
      if is_error same_inbox_error e duplicate_msg then (ok tt, c) else send_dlq msg c

  abbrev add_valid : Message → Update → Option InboxError → Consumer → Outcome
  add_valid msg u (some e) c = send_dlq msg c
  add_valid msg u none c =
      let (r, session) =
        add_record (record { record_ = u; idempotency_key = find_idemp_key msg.headers })
          c.session in
      stored msg r (record c { session = session })

  abbrev decoded : Message → Result InboxError Update → Consumer → Outcome
  decoded msg (err e) c = send_dlq msg c
  decoded msg (ok u) c = add_valid msg u (validate_update (some u)) c

  unfoldable pub process_message : Message → Consumer → Outcome
  unfolding add_record find_idemp_key send_dlq validate_update is_error
  process_message msg c = decoded msg (decode msg) c

  -- CommitMessages, which does not fail, and the rest of the loop
  abbrev pub commit_then : Message → Outcome → (Consumer → Outcome) → Outcome
  commit_then msg (ok _, c) rest = rest (record c { committed = c.committed ++ msg ∷ [] })
  commit_then msg (err e, c) rest = (err e, c)

  -- PostUpdates
  unfoldable pub post_updates : List Message → Consumer → Outcome
  unfolding process_message
  post_updates [] c = (ok tt, c)
  post_updates (msg ∷ msgs) c = commit_then msg (process_message msg c) (post_updates msgs)
