-- ===== src/Bot/Handler/Laws.antt =====
-- What a message is answered.
use linktracker_eng.Prelude.{
  ℕ, suc, zero, ◌≡◌, ◌≢◌, refl, ap, ◌∙◌, Bool-cases, Option-cases, ◌⊎◌, inl, inr, List, [], ◌∷◌,
  ◌++◌, Option, none, some, Text, Unicode,
}
use linktracker_eng.Retry.{
  Retrier, World, Ending, returned, do_fn, do_loop, after_call, checked, backoff_delay,
}
use linktracker_eng.Bot.Command.{Scrapper, handle}
use linktracker_eng.Bot.Handler.{
  TelegramError, Line, refusal, later, send_message, answered, is_retryable_telegram_err, Message,
  text_of, Chats, reply_to, handle_update,
}

-- Sent once, and the retrier returned nil; or not sent, and it did not.
abbrev pub SentOnce : ℕ × Text → List (ℕ × Text) → Ending TelegramError × Line → Type 0
SentOnce m before (ending, l) =
    ((l.sent ≡ before ++ m ∷ []) × (ending ≡ returned none))
    ⊎ ((l.sent ≡ before) × (ending ≢ returned none))

module _ (w : World TelegramError Line) (r : Retrier) (m : ℕ × Text)
    (sleeps : (d : ℕ) (l : Line) → (w.sleep d l).sent ≡ l.sent) where
  abbrev Rest :
      List (ℕ × Text) → (Option TelegramError → Line → Ending TelegramError × Line) → Type 0
  Rest before rest =
      (e : TelegramError) (l : Line) → l.sent ≡ before → SentOnce m before (rest (some e) l)

  after_call-SentOnce :
      (i : ℕ) (before : List (ℕ × Text)) (l : Line)
      (rest : Option TelegramError → Line → Ending TelegramError × Line)
      (out : Option TelegramError)
      → l.sent ≡ before
      → Rest before rest
      → let (err, l') = answered m out l in
        SentOnce m before
          (after_call w r (send_message m) is_retryable_telegram_err i err l' (rest err))
  after_call-SentOnce i before l rest none e h = inl (ap (λ s. s ++ m ∷ []) e, refl)
  after_call-SentOnce i before l rest (some x) e h =
      elim (Bool-cases (is_retryable_telegram_err x)) [
        | inr c ↦ rw c (inr (e, λ k. cc))
        | inl c ↦
            elim (Option-cases (
              backoff_delay (w.draw (record l { refusals = later l.refusals })) r.base_delay
                r.max_delay i)) [
                  | inl b ↦ rw (c, b) (inr (e, λ k. cc))
                  | inr (d, b) ↦ rw (c, b) (h x (w.sleep d _) (sleeps d _ ∙ e))
                ]
      ]

  checked-SentOnce :
      (i : ℕ) (before : List (ℕ × Text)) (l : Line)
      (rest : Option TelegramError → Line → Ending TelegramError × Line)
      → l.sent ≡ before
      → Rest before rest
      → SentOnce m before
          (checked w r (send_message m) is_retryable_telegram_err i (w.ctx_err l) l rest)
  checked-SentOnce i before l rest e h = elim (Option-cases (w.ctx_err l)) [
    | inr (x, stopped) ↦ rw stopped (inr (e, λ k. cc))
    | inl live ↦ rw live (after_call-SentOnce i before l rest (refusal l.refusals) e h)
  ]

  do_loop-SentOnce :
      (n i : ℕ) (x : TelegramError) (before : List (ℕ × Text)) (l : Line)
      → l.sent ≡ before
      → SentOnce m before (do_loop w r (send_message m) is_retryable_telegram_err n i (some x) l)
  unfolding do_loop
  do_loop-SentOnce zero i x before l e = inr (e, λ k. cc)
  do_loop-SentOnce (suc n) i x before l e =
      checked-SentOnce i before l _ e (λ x' l' e'. do_loop-SentOnce n (suc i) x' before l' e')

  do_fn-SentOnce :
      (n : ℕ) (l : Line)
      → SentOnce m l.sent (do_loop w r (send_message m) is_retryable_telegram_err (suc n) 0 none l)
  unfolding do_loop
  do_fn-SentOnce n l =
      checked-SentOnce 0 l.sent l _ refl (λ x' l' e'. do_loop-SentOnce n 1 x' l.sent l' e')

-- A message is answered at most once: the retrier sends the answer of the command, or that the service is
-- unavailable where the command failed with an error, once to the chat of the message and returns nil, or
-- it sends nothing and returns an error or panics. The retrier has at least one attempt, and sleeping
-- sends nothing.
pub handle_update_once :
    (scrapper : Scrapper) (u : Unicode) (w : World TelegramError Line) (r : Retrier) (msg : Message)
    (s : Chats) (n : ℕ)
    → r.max_attempts ≡ suc n
    → ((d : ℕ) (l : Line) → (w.sleep d l).sent ≡ l.sent)
    → let (answer, bot) = handle scrapper u msg.text msg.chat s.bot in
      let m : ℕ × Text = (msg.chat, text_of answer) in
      let out = handle_update scrapper u w r (some msg) s in
      (out.bot ≡ bot) × SentOnce m s.line.sent ((reply_to scrapper u w r m s.line).0, out.line)
unfolding handle_update do_fn
handle_update_once scrapper u w r msg s n attempts sleeps =
    (refl, rw attempts (do_fn-SentOnce w r _ sleeps n s.line))
