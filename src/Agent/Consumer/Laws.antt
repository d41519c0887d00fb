-- ===== src/Agent/Consumer/Laws.antt =====
-- How far the agent's consumer gets in its topic.
use linktracker_eng.Prelude.{
  ℕ, zero, suc, ◌≡◌, refl, ap, ◌∙◌, sym, is_nil, inl, inr, false, List, [], ◌∷◌, ◌++◌, Option, none,
  some, if◌then◌else◌, Result, ok, err, wrap, fault, read_failure, arith, is_error,
  is_unique_violation, Result-cases, Bool-cases, Option-cases,
}
use mathlib.Core.List.{append-nil, append_assoc}
use linktracker_eng.Exec.{◌>>=◌}
use linktracker_eng.Db.{statement}
use linktracker_eng.Db.Quiet.{quiet}
use linktracker_eng.Wire.{Message}
use linktracker_eng.Agent.Updates.{RawUpdate, validate}
use linktracker_eng.Agent.Tables.{AgentError, Tables}
use linktracker_eng.Agent.Inbox.{has_update, inbox_row, add_record}
use linktracker_eng.Agent.Consumer.{Consumer, Outcome, consume, handle_failure, commit_message}

-- The consumer on a database, a topic and a queue of dead letters without failures.
abbrev pub idle : Tables → ℕ → List Message → List Message → Consumer
idle t now dlq committed = record {
  session = quiet t now;
  dlq = dlq;
  dlq_faults = [];
  committed = committed;
  commit_faults = [];
}

module _ (decode : Message → Result AgentError RawUpdate) where
  abbrev pub with_chats : Result AgentError RawUpdate → Option RawUpdate
  with_chats (err e) = none
  with_chats (ok raw) = if is_nil raw.chat_ids then none else some raw

  -- The update of a message, if it is one and has chats.
  abbrev pub accepted : Message → Option RawUpdate
  accepted msg = with_chats (decode msg)

  -- A pending row for an update whose id is new.
  abbrev pub with_row : RawUpdate → ℕ → Tables → Tables
  with_row raw now t =
      if has_update raw.id t.inbox
      then t
      else record t { inbox = t.inbox ++ inbox_row raw now ∷ [] }

  consume_bad :
      (msg : Message) (msgs : List Message) (t : Tables) (now : ℕ) (dlq committed : List Message)
      → accepted msg ≡ none
      → consume decode (msg ∷ msgs) (idle t now dlq committed)
        ≡ (ok tt, idle t now (dlq ++ msg ∷ []) committed)
  unfolding consume handle_failure validate
  consume_bad msg msgs t now dlq committed h = elim (Result-cases (decode msg)) [
    | inr (e, f) ↦ rw f refl
    | inl (raw, f) ↦ rw f (elim (Bool-cases (is_nil raw.chat_ids)) [
      | inl g ↦ rw g refl
      | inr g ↦ absurd (ground arith)
    ])
  ]

  with_chats-some :
      (r : Result AgentError RawUpdate) (raw : RawUpdate)
      → with_chats r ≡ some raw
      → (r ≡ ok raw) × (is_nil raw.chat_ids ≡ false)
  with_chats-some (err e) raw h = cc
  with_chats-some (ok u) raw h = elim (Bool-cases (is_nil u.chat_ids)) [
    | inl g ↦ absurd (ground arith)
    | inr g ↦ (let same : u ≡ raw = ground arith in (ap (λ x. ok x) same, rw (sym same) g))
  ]

  consume_good :
      (msg : Message) (msgs : List Message) (t : Tables) (now : ℕ) (dlq committed : List Message)
      (raw : RawUpdate)
      → accepted msg ≡ some raw
      → consume decode (msg ∷ msgs) (idle t now dlq committed)
        ≡ consume decode msgs (idle (with_row raw now t) now dlq (committed ++ msg ∷ []))
  unfolding consume commit_message validate add_record statement ◌>>=◌ is_unique_violation is_error
  consume_good msg msgs t now dlq committed raw h =
      let (f, g) = with_chats-some (decode msg) raw h in
      rw (f, g)
        (elim (Bool-cases (has_update raw.id t.inbox)) [ inl k ↦ rw k refl | inr k ↦ rw k refl ])

  abbrev front_of : Option RawUpdate → Message → List Message → List Message
  front_of none msg rest = []
  front_of (some raw) msg rest = msg ∷ rest

  abbrev back_of : Option RawUpdate → List Message → List Message → List Message
  back_of none msgs rest = msgs
  back_of (some raw) msgs rest = rest

  -- The messages up to the first that is not accepted, and the others.
  unfoldable pub front : List Message → List Message
  front [] = []
  front (msg ∷ msgs) = front_of (accepted msg) msg (front msgs)

  unfoldable pub back : List Message → List Message
  back [] = []
  back (msg ∷ msgs) = back_of (accepted msg) (msg ∷ msgs) (back msgs)

  abbrev with_accepted : Option RawUpdate → ℕ → Tables → Tables
  with_accepted none now t = t
  with_accepted (some raw) now t = with_row raw now t

  -- The inbox with the updates of messages.
  unfoldable pub with_rows : List Message → ℕ → Tables → Tables
  with_rows [] now t = t
  with_rows (msg ∷ msgs) now t = with_rows msgs now (with_accepted (accepted msg) now t)

  split_bad :
      (msg : Message) (msgs : List Message)
      → accepted msg ≡ none
      → (front (msg ∷ msgs) ≡ []) × (back (msg ∷ msgs) ≡ msg ∷ msgs)
  unfolding front back
  split_bad msg msgs e =
      (ap (λ o. front_of o msg (front msgs)) e, ap (λ o. back_of o (msg ∷ msgs) (back msgs)) e)

  split_good :
      (msg : Message) (msgs : List Message) (raw : RawUpdate) (now : ℕ) (t : Tables)
      → accepted msg ≡ some raw
      → (front (msg ∷ msgs) ≡ msg ∷ front msgs)
        × (back (msg ∷ msgs) ≡ back msgs)
        × (with_rows (msg ∷ front msgs) now t ≡ with_rows (front msgs) now (with_row raw now t))
  unfolding front back with_rows
  split_good msg msgs raw now t e = (
    ap (λ o. front_of o msg (front msgs)) e,
    ap (λ o. back_of o (msg ∷ msgs) (back msgs)) e,
    ap (λ o. with_rows (front msgs) now (with_accepted o now t)) e,
  )

  -- The end of Consume: the topic cannot be read any more, or a message is refused.
  abbrev pub ended : List Message → ℕ → Tables → List Message → List Message → Outcome
  ended [] now t dlq committed =
      (err (wrap "read msg from kafka" (fault read_failure)), idle t now dlq committed)
  ended (msg ∷ msgs) now t dlq committed = (ok tt, idle t now (dlq ++ msg ∷ []) committed)

-- On a database, a topic and a queue of dead letters without failures, Consume takes the messages
-- up to the first that it cannot decode or that has no chats: each of them becomes a pending row of
-- the inbox, unless its id is already there, and is committed. It then ends: with an error if the
-- topic has no more messages, and without one at a refused message, which becomes a dead letter but
-- is not committed, and neither is any message behind it.
pub consume_lem :
    (decode : Message → Result AgentError RawUpdate) (msgs : List Message) (t : Tables) (now : ℕ)
    (dlq committed : List Message)
    → consume decode msgs (idle t now dlq committed)
      ≡ ended decode
          (back decode msgs)
          now
          (with_rows decode (front decode msgs) now t)
          dlq
          (committed ++ front decode msgs)
unfolding consume front back with_rows
consume_lem decode [] t now dlq committed = rw append-nil refl
consume_lem decode (msg ∷ msgs) t now dlq committed = elim (Option-cases (accepted decode msg)) [
  | inl e ↦
      (let (f, b) = split_bad decode msg msgs e in
        consume_bad decode msg msgs t now dlq committed e ∙ rw (f, b, append-nil) refl)
  | inr (raw, e) ↦
      (let (f, b, r) = split_good decode msg msgs raw now t e in
        consume_good decode msg msgs t now dlq committed raw e
        ∙ consume_lem decode msgs (with_row decode raw now t) now dlq (committed ++ msg ∷ [])
        ∙ rw (f, b, r, append_assoc) refl)
]

-- A consumer that is started anew gets the messages that are not committed.
abbrev pub restarted :
    (Message → Result AgentError RawUpdate) → ℕ → List Message → Consumer → Consumer
restarted decode zero msgs c = c
restarted decode (suc n) msgs c = restarted decode n msgs (consume decode msgs c).1

abbrev pub repeated : ℕ → Message → List Message
repeated zero msg = []
repeated (suc n) msg = msg ∷ repeated n msg

pub consume_blocked :
    (decode : Message → Result AgentError RawUpdate) (msg : Message) (msgs : List Message)
    (t : Tables) (now n : ℕ) (dlq committed : List Message)
    → accepted decode msg ≡ none
    → restarted decode n (msg ∷ msgs) (idle t now dlq committed)
      ≡ idle t now (dlq ++ repeated n msg) committed
consume_blocked decode msg msgs t now zero dlq committed h = rw append-nil refl
consume_blocked decode msg msgs t now (suc n) dlq committed h =
    ap (λ (o : Outcome). restarted decode n (msg ∷ msgs) o.1)
      (consume_bad decode msg msgs t now dlq committed h)
    ∙ consume_blocked decode msg msgs t now n (dlq ++ msg ∷ []) committed h
    ∙ rw append_assoc refl
