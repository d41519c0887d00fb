-- ===== src/Bot/Consumer/Laws.antt =====
-- What becomes of a message that the bot consumes.
use linktracker_eng.Prelude.{
  ℕ, ◌≡◌, refl, ap, ◌∙◌, is_nil, inl, inr, Bool, true, false, List, [], ◌∷◌, ◌++◌, Option, none,
  some, Text, if◌then◌else◌, Error, Result, ok, err, arith, is_error, is_unique_violation,
  Result-cases, Bool-cases,
}
use mathlib.Core.List.{append-nil, append_assoc}
use linktracker_eng.Exec.{◌>>=◌}
use linktracker_eng.Db.{statement}
use linktracker_eng.Db.Quiet.{quiet}
use linktracker_eng.Bot.Inbox.{
  InboxError, empty_chat_ids, Update, InboxRow, Inbox, has_key, add_record,
}
use linktracker_eng.Wire.{Message}
use linktracker_eng.Bot.Consumer.{
  Consumer, find_idemp_key, validate_update, process_message, post_updates, Outcome, commit_then,
}

-- The consumer between transactions, on a database and a queue of dead letters without failures.
abbrev pub idle : Inbox → ℕ → List Message → List Message → Consumer
idle t now dlq committed = record {
  session = quiet t now;
  dlq = dlq;
  dlq_faults = [];
  committed = committed;
}

abbrev pub row_of : Update → Text → ℕ → InboxRow
row_of u key now = record { key = key; update = u; processed = false; created_at = now }

module _ (decode : Message → Result InboxError Update) (msg : Message) (now : ℕ) where
  process_message_valid :
      (t : Inbox) (dlq committed : List Message) (u : Update)
      → decode msg ≡ ok u
      → validate_update (some u) ≡ none
      → let key = find_idemp_key msg.headers in
        process_message decode msg (idle t now dlq committed)
        ≡ (ok tt, idle (if has_key key t then t else t ++ row_of u key now ∷ []) now dlq committed)
  unfolding process_message add_record statement ◌>>=◌ is_unique_violation is_error
  process_message_valid t dlq committed u d v = rw (d, v) (ground arith)

  process_message_bad :
      (t : Inbox) (dlq committed : List Message) (e : Error InboxError)
      → decode msg ≡ err e
      → process_message decode msg (idle t now dlq committed)
        ≡ (ok tt, idle t now (dlq ++ msg ∷ []) committed)
  unfolding process_message
  process_message_bad t dlq committed e d = rw d refl

  process_message_invalid :
      (t : Inbox) (dlq committed : List Message) (u : Update) (e : InboxError)
      → decode msg ≡ ok u
      → validate_update (some u) ≡ some e
      → process_message decode msg (idle t now dlq committed)
        ≡ (ok tt, idle t now (dlq ++ msg ∷ []) committed)
  unfolding process_message
  process_message_invalid t dlq committed u e d v = rw (d, v) refl

-- What is to become of the messages: a valid one whose key is new becomes a pending row, a valid
-- one whose key is known is dropped, and every other one becomes a dead letter.
module _ (decode : Message → Result InboxError Update) (now : ℕ) where
  abbrev checked : Result InboxError Update → Option Update
  checked (err e) = none
  checked (ok u) = if is_nil u.chat_ids then none else some u

  abbrev with_row : Text → Option Update → Inbox → Inbox
  with_row key none t = t
  with_row key (some u) t = if has_key key t then t else t ++ row_of u key now ∷ []

  abbrev dead : Message → Option Update → List Message
  dead msg none = msg ∷ []
  dead msg (some u) = []

  unfoldable pub inbox_of : List Message → Inbox → Inbox
  inbox_of [] t = t
  inbox_of (msg ∷ msgs) t =
      inbox_of msgs (with_row (find_idemp_key msg.headers) (checked (decode msg)) t)

  unfoldable pub dead_of : List Message → List Message
  dead_of [] = []
  dead_of (msg ∷ msgs) = dead msg (checked (decode msg)) ++ dead_of msgs

  one_message :
      (msg : Message) (t : Inbox) (dlq committed : List Message)
      → process_message decode msg (idle t now dlq committed) ≡ (
        ok tt,
        idle
            (with_row (find_idemp_key msg.headers) (checked (decode msg)) t)
            now
            (dlq ++ dead msg (checked (decode msg)))
            committed,
      )
  unfolding validate_update
  one_message msg t dlq committed = elim (Result-cases (decode msg)) [
    | inr (e, d) ↦ rw (process_message_bad decode msg now t dlq committed e d, d) refl
    | inl (u, d) ↦ elim (Bool-cases (is_nil u.chat_ids)) [
      | inr n ↦
          rw
            (process_message_valid decode msg now t dlq committed u d (rw n refl), d, n, append-nil)
            refl
      | inl n ↦
          rw
            (
              process_message_invalid decode msg now t dlq committed u empty_chat_ids d (rw n refl),
              d,
              n,
            )
            refl
    ]
  ]

-- On a database and a queue of dead letters without failures, PostUpdates reads all the messages and
-- commits each of them, and no message is lost: the inbox and the dead letters are those that
-- are to be. So a message that comes again under its key is stored once.
pub post_updates_lem :
    (decode : Message → Result InboxError Update) (now : ℕ) (msgs : List Message) (t : Inbox)
    (dlq committed : List Message)
    → post_updates decode msgs (idle t now dlq committed) ≡ (
      ok tt,
      idle (inbox_of decode now msgs t) now (dlq ++ dead_of decode now msgs) (committed ++ msgs),
    )
unfolding post_updates inbox_of dead_of
post_updates_lem decode now [] t dlq committed = rw (append-nil, append-nil) refl
post_updates_lem decode now (msg ∷ msgs) t dlq committed =
    let step =
      ap (λ (o : Outcome). commit_then decode msg o (post_updates decode msgs))
        (one_message decode now msg t dlq committed) in
    step
    ∙ post_updates_lem decode now msgs _ _ (committed ++ msg ∷ [])
    ∙ rw (append_assoc, append_assoc) refl

-- A valid message that comes while the connection to the database fails is lost: AddRecord returns
-- nil, so the message is not stored, is no dead letter, and is to be committed.
pub process_message_lost :
    (decode : Message → Result InboxError Update) (msg : Message) (u : Update) (c : Consumer)
    (later : List Bool)
    → decode msg ≡ ok u
    → validate_update (some u) ≡ none
    → c.session.aborted ≡ false
    → c.session.faults ≡ true ∷ later
    → ((process_message decode msg c).0 ≡ ok tt)
      × ((process_message decode msg c).1.session.tables ≡ c.session.tables)
      × ((process_message decode msg c).1.dlq ≡ c.dlq)
unfolding process_message add_record statement ◌>>=◌ is_unique_violation is_error
process_message_lost decode msg u c later d v a f = rw (d, v, a, f) (refl, refl, refl)
