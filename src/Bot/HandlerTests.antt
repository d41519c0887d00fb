-- ===== src/Bot/HandlerTests.antt =====
-- A message whose answer Telegram takes at the second attempt.
use linktracker_eng.Prelude.{ℕ, ◌≡◌, refl, false, [], ◌∷◌, none, some, Text, codes, ◌-◌}
use linktracker_eng.Retry.{Retrier, World}
use linktracker_eng.Bot.Command.{handle}
use linktracker_eng.Bot.Handler.{
  TelegramError, Line, Message, Chats, text_of, reply_to, handle_update,
}
use linktracker_eng.Bot.Handler.Laws.{SentOnce, handle_update_once}
use linktracker_eng.Bot.Tests.{ascii, willing, fresh}

abbrev retrier : Retrier
retrier = record { max_attempts = 3; base_delay = 200; max_delay = 1000 }

abbrev world : World TelegramError Line
world = record { ctx_err = λ s. none; sleep = λ d s. s; draw = λ s n. n - 1 }

abbrev msg : Message
msg = record { chat = 1; text = codes "/help" }

abbrev busy : TelegramError
busy = record { of_context = false; text = codes "error response from telegram, 500" }

abbrev s : Chats
s = record { bot = fresh; line = record { sent = []; refusals = some busy ∷ none ∷ [] } }

handle_update_once_example :
    let (answer, bot) = handle willing ascii (codes "/help") 1 fresh in
    let m : ℕ × Text = (1, text_of answer) in
    let out = handle_update willing ascii world retrier (some msg) s in
    (out.bot ≡ bot) × SentOnce m [] ((reply_to willing ascii world retrier m s.line).0, out.line)
handle_update_once_example =
    handle_update_once willing ascii world retrier msg s 2 refl (λ d l. refl)
