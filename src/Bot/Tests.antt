-- ===== src/Bot/Tests.antt =====
-- The bot's theorems on a concrete conversation.
use linktracker_eng.Prelude.{
  ℕ, ◌≡◌, refl, List, [], ◌∷◌, ◌++◌, Text, codes, Unicode, ascii_lower, leb, ◌&&◌, ok, keep,
}
use linktracker_eng.Bot.States.{get}
use linktracker_eng.Bot.Command.{Scrapper, BotState}
use linktracker_eng.Bot.Dialogue.{phase_of}
use linktracker_eng.Bot.Traces.{handle_all, dialogue, about, handle_all-dialogue}

abbrev pub ascii : Unicode
ascii = record {
  lower = ascii_lower;
  is_letter = λ c. leb b'a' c && leb c b'z';
  is_digit = λ c. leb b'0' c && leb c b'9';
  lower_ascii = λ c h. refl;
}

-- A scrapper that does what it is told.
abbrev pub willing : Scrapper
willing = record { outcome = λ calls c. ok tt; links = λ calls c. ok [] }

abbrev pub fresh : BotState
fresh = record { states = []; calls = []; rates = [] }

-- Two chats whose messages interleave.
abbrev messages : List (ℕ × Text)
messages =
    (1, codes "/track")
    ∷ (2, codes "/list")
    ∷ (1, codes "/url https://github.com/a/b")
    ∷ (2, codes "/track")
    ∷ (1, codes "/tags go")
    ∷ []

handle_all-dialogue_example :
    let s = handle_all willing ascii messages fresh in
    let (p, calls) = dialogue ascii 1 (phase_of (get 1 [])) messages in
    (phase_of (get 1 s.states) ≡ p) × (keep (about 1) s.calls ≡ keep (about 1) [] ++ calls)
handle_all-dialogue_example = handle_all-dialogue willing ascii 1 messages fresh
