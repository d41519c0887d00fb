-- ===== src/Bot/Inbox.antt =====
-- internal/bot/infrastructure/repository/inbox.go, over the table bot_inbox of migrations/, and the
-- messages of internal/bot/infrastructure/kafka/dto.go.
use linktracker_eng.Prelude.{
  ℕ, ◌+◌, Bool, true, false, not, ◌&&◌, List, [], ◌∷◌, ◌++◌, map, Text, text_eq, any_of, keep, take,
  ltb, ◌==◌, if◌then◌else◌, sort, Error, sentinel, fault, tx_aborted, unique_violation,
  foreign_key_violation, Result, ok, err, is_unique_violation,
}
use linktracker_eng.Exec.{Exec, pure, raise, attempt, ◌>>=◌}
use linktracker_eng.Db.{Session, statement}

pub data InboxError : Type 0 where
  duplicate_msg nil_update empty_chat_ids bad_message : InboxError

abbrev pub same_inbox_error : InboxError → InboxError → Bool
same_inbox_error duplicate_msg duplicate_msg = true
same_inbox_error nil_update nil_update = true
same_inbox_error empty_chat_ids empty_chat_ids = true
same_inbox_error bad_message bad_message = true
same_inbox_error _ _ = false

pub record Update : Type 0 where
  pub id : ℕ
  pub url : Text
  pub description : Text
  pub chat_ids : List ℕ

pub record InboxRecord : Type 0 where
  pub record_ : Update
  pub idempotency_key : Text

pub record InboxRow : Type 0 where
  pub key : Text
  pub update : Update
  pub processed : Bool
  pub created_at : ℕ

abbrev pub Inbox : Type 0
Inbox = List InboxRow

abbrev pub Op : Type 0 → Type 0
Op A = Exec InboxError (Session Inbox) A

abbrev pub has_key : Text → Inbox → Bool
has_key k = any_of (λ r. text_eq r.key k)

-- addRecordInbox; idempotency_key is unique
abbrev pub insert_record : InboxRecord → ℕ → Inbox → Result InboxError (Unit {0} × Inbox)
insert_record rec now t =
    if has_key rec.idempotency_key t
    then err (fault unique_violation)
    else ok (
      tt,
      t
          ++ record {
            key = rec.idempotency_key;
            update = rec.record_;
            processed = false;
            created_at = now;
          }
            ∷ [],
    )

-- Whether a failure is an answer of the server (*pgconn.PgError), and not one of the connection.
abbrev pub is_pg_error : Error InboxError → Bool
is_pg_error (fault tx_aborted) = true
is_pg_error (fault unique_violation) = true
is_pg_error (fault foreign_key_violation) = true
is_pg_error _ = false

abbrev pub recorded : Result InboxError (Unit {0}) → Op (Unit {0})
recorded (ok _) = pure tt
recorded (err e) =
    if is_pg_error e
    then (if is_unique_violation e then raise (sentinel duplicate_msg) else raise e)
    else pure tt

-- AddRecord
unfoldable pub add_record : InboxRecord → Op (Unit {0})
add_record rec = do r ← attempt (statement (insert_record rec)); recorded r

abbrev pub earlier : InboxRow → InboxRow → Bool
earlier a b = ltb a.created_at b.created_at

abbrev pub select_pending : ℕ → ℕ → Inbox → Result InboxError (List Update × Inbox)
select_pending n now t =
    ok (map (λ r. r.update) (take n (sort earlier (keep (λ r. not r.processed) t))), t)

-- FetchPending
unfoldable pub fetch_pending : ℕ → Op (List Update)
fetch_pending n = statement (select_pending n)

abbrev pub mark_row : ℕ → InboxRow → InboxRow
mark_row id r = if r.update.id == id then record r { processed = true } else r

abbrev pub mark_rows : List Update → Inbox → Inbox
mark_rows [] t = t
mark_rows (u ∷ us) t = mark_rows us (map (mark_row u.id) t)

-- MarkProcessed: one batch, which is one request
unfoldable pub mark_processed : List Update → Op (Unit {0})
mark_processed us = statement (λ now t. ok (tt, mark_rows us t))

-- Cleanup
unfoldable pub cleanup : ℕ → Op (Unit {0})
cleanup gap =
    statement (λ now t. ok (tt, keep (λ r. not (r.processed && ltb (r.created_at + gap) now)) t))
