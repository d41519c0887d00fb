-- ===== src/Bot/Relay.antt =====
-- relayInbox of internal/bot/infrastructure/scheduler/scheduler.go. Telegram fails where the script
-- says so; what it accepted is in `sent`.
use linktracker_eng.Prelude.{
  ℕ, ◌≡◌, refl, ap, Bool, not, List, [], ◌∷◌, ◌++◌, Text, ok, wrap, if◌then◌else◌, map, take, keep,
  sort, arith,
}
use linktracker_eng.Exec.{pure, or_return, ◌>>=◌, ◌>>◌}
use linktracker_eng.Db.{statement, with_transaction, failing, later}
use linktracker_eng.Db.Quiet.{quiet}
use linktracker_eng.Bot.Inbox.{
  Update, Inbox, Op, fetch_pending, mark_processed, cleanup, mark_rows, earlier,
}

pub record Telegram : Type 0 where
  pub sent : List (ℕ × Text)
  pub faults : List Bool

-- The messages of one update, up to the first that fails.
unfoldable pub send_chats : Text → List ℕ → Telegram → Telegram
send_chats text [] tg = tg
send_chats text (chat ∷ chats) tg =
    let rest =
      send_chats text chats
        (record { sent = tg.sent ++ (chat, text) ∷ []; faults = later tg.faults }) in
    if failing tg.faults then record tg { faults = later tg.faults } else rest

-- sendTelegram: the updates that count as received, and Telegram after it
unfoldable pub send_telegram : List Update → Telegram → List Update × Telegram
unfolding send_chats
send_telegram [] tg = ([], tg)
send_telegram (u ∷ us) tg =
    let (success, tg') = send_telegram us (send_chats u.description u.chat_ids tg) in
    (u ∷ success, tg')

-- relayInboxTx and relayInbox, which return what became of Telegram; where they fail, that is what
-- sendTelegram makes of the fetched updates.
unfoldable pub relay_inbox_tx : ℕ → Telegram → Op Telegram
unfolding fetch_pending mark_processed send_telegram
relay_inbox_tx batch tg = do
  updates ← or_return (fetch_pending batch) (wrap "fetch pending inbox")
  or_return (mark_processed (send_telegram updates tg).0) (wrap "update inbox status")
  pure (send_telegram updates tg).1

unfoldable pub relay_inbox : ℕ → Telegram → Op Telegram
unfolding relay_inbox_tx
relay_inbox batch tg = with_transaction (relay_inbox_tx batch tg)

unfoldable pub clean_inbox : ℕ → Op (Unit {0})
unfolding cleanup
clean_inbox gap = or_return (cleanup gap) (wrap "inbox cleaning")

-- Whatever Telegram refuses, sendTelegram counts all the updates as received.
send_telegram_lem : (us : List Update) (tg : Telegram) → (send_telegram us tg).0 ≡ us
unfolding send_telegram
send_telegram_lem [] tg = refl
send_telegram_lem (u ∷ us) tg = ap (λ l. u ∷ l) (send_telegram_lem us _)

-- The updates that a relay fetches.
abbrev pub pending : ℕ → Inbox → List Update
pending batch t = map (λ r. r.update) (take batch (sort earlier (keep (λ r. not r.processed) t)))

pub relay_inbox_lem :
    (batch now : ℕ) (tg : Telegram) (t : Inbox)
    → relay_inbox batch tg (quiet t now)
      ≡ (ok (send_telegram (pending batch t) tg).1, quiet (mark_rows (pending batch t) t) now)
unfolding relay_inbox fetch_pending mark_processed with_transaction statement ◌>>=◌
relay_inbox_lem batch now tg t = ground (arith, send_telegram_lem (pending batch t) tg)
