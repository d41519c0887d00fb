-- ===== src/Bot/Handler.antt =====
-- The handler of messages, internal/bot/infrastructure/telegram/handler.go, with isRetryableTelegramErr of
-- bot.go. Telegram refuses where its script says so; sleeping, the context and the random delays of the
-- retrier are a parameter.
pub mod Laws
use linktracker_eng.Prelude.{
  ℕ, Bool, true, false, ◌||◌, ◌&&◌, List, [], ◌∷◌, ◌++◌, Option, none, some, Text, codes, Unicode,
  ◌==◌, if◌then◌else◌, Error,
}
use linktracker_eng.Retry.{Retrier, World, Ending, do_fn}
use linktracker_eng.Bot.Command.{BotError, BotState, Answer, Scrapper, handle}

-- An error of SendMessage: whether it is context.Canceled or DeadlineExceeded, and its text.
pub record TelegramError : Type 0 where
  pub of_context : Bool
  pub text : Text

pub record Line : Type 0 where
  pub sent : List (ℕ × Text)
  pub refusals : List (Option TelegramError)

abbrev pub refusal : List (Option TelegramError) → Option TelegramError
refusal [] = none
refusal (r ∷ rs) = r

abbrev pub later : List (Option TelegramError) → List (Option TelegramError)
later [] = []
later (r ∷ rs) = rs

abbrev starts_with : Text → Text → Bool
starts_with s [] = true
starts_with [] (c ∷ p) = false
starts_with (d ∷ s) (c ∷ p) = d == c && starts_with s p

-- strings.Contains
unfoldable pub contains : Text → Text → Bool
contains [] p = starts_with [] p
contains (c ∷ s) p = starts_with (c ∷ s) p || contains s p

-- isRetryableTelegramErr
unfoldable pub is_retryable_telegram_err : TelegramError → Bool
unfolding contains
is_retryable_telegram_err e =
    if e.of_context then false else contains e.text (codes "500") || contains e.text (codes "503")

-- One SendMessage.
abbrev pub answered : ℕ × Text → Option TelegramError → Line → Option TelegramError × Line
answered m none l = (none, record { sent = l.sent ++ m ∷ []; refusals = later l.refusals })
answered m (some e) l = (some e, record l { refusals = later l.refusals })

abbrev pub send_message : ℕ × Text → Line → Option TelegramError × Line
send_message m l = answered m (refusal l.refusals) l

pub record Message : Type 0 where
  pub chat : ℕ
  pub text : Text

abbrev pub service_unavailable : Text
service_unavailable = codes "Сервис временно недоступен, попробуйте позже"

abbrev pub text_of : Answer → Text
text_of (text, none) = text
text_of (text, some e) = service_unavailable

pub record Chats : Type 0 where
  pub bot : BotState
  pub line : Line

module _ (scrapper : Scrapper) (u : Unicode) (w : World TelegramError Line) (r : Retrier) where
  -- Do with one SendMessage
  abbrev pub reply_to : ℕ × Text → Line → Ending TelegramError × Line
  reply_to m = do_fn w r (send_message m) is_retryable_telegram_err

  -- The handler; none for an update without a message
  unfoldable pub handle_update : Option Message → Chats → Chats
  unfolding is_retryable_telegram_err
  handle_update none s = s
  handle_update (some msg) s =
      let (answer, bot) = handle scrapper u msg.text msg.chat s.bot in
      record { bot = bot; line = (reply_to (msg.chat, text_of answer) s.line).1 }
