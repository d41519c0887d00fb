-- ===== src/Bot/Traces.antt =====
-- Messages of many chats, in any order: each chat holds its own dialogue.
use linktracker_eng.Prelude.{
  ℕ, ◌≡◌, ◌≢◌, refl, ap, Bool, false, List, [], ◌∷◌, ◌++◌, Text, arith, if◌then◌else◌, Unicode,
  ==_cases, inl, inr, keep, ◌==◌, ==_refl, keep-append, Option,
}
use mathlib.Core.List.{append-nil, append_assoc}
use linktracker_eng.Bot.States.{
  ChatState, stored_or, zero_state, ClientState, available, await_link, await_tags, get,
  start_tracking, set_url, set_tags, lookup, lookup-remove_other, lookup-start_tracking_other,
  lookup-set_url_other, lookup-set_tags_other,
}
use linktracker_eng.Bot.Command.{
  Call, register_chat, list_links, track_link, add_tags, untrack_link, clear_tags, Scrapper,
  BotState, parse_input, available_chat_handle, await_link_handle, await_tags_handle, handle,
  handle_in,
}
use linktracker_eng.Bot.Dialogue.{
  Phase, idle, wants_link, wants_tags, phase_of, next_phase, calls_in, handle-follows,
}

-- The updates of the bot, one after another: the chat and the text of each message.
unfoldable pub handle_all : Scrapper → Unicode → List (ℕ × Text) → BotState → BotState
unfolding handle
handle_all scrapper u [] s = s
handle_all scrapper u ((chat, text) ∷ ms) s =
    handle_all scrapper u ms (handle scrapper u text chat s).1

abbrev pub about : ℕ → Call → Bool
about c (register_chat k) = k == c
about c (list_links k) = k == c
about c (track_link k url tags) = k == c
about c (add_tags k url tags) = k == c
about c (untrack_link k url) = k == c
about c (clear_tags k url) = k == c

-- What the machine of one chat makes of the messages: its calls, and its last phase.
unfoldable pub dialogue : Unicode → ℕ → Phase → List (ℕ × Text) → Phase × List Call
unfolding parse_input next_phase calls_in
dialogue u c p [] = (p, [])
dialogue u c p ((k, text) ∷ ms) =
    let (cmd, args) = parse_input u text in
    let (q, calls) = dialogue u c (next_phase p cmd args) ms in
    let skipped = dialogue u c p ms in
    if k == c then (q, calls_in p c cmd args ++ calls) else skipped

module _ (scrapper : Scrapper) (chat other : ℕ) (ne : other ≢ chat) (cmd : Text) where
  -- The memory of `other` is the same before and after.
  abbrev Spares : BotState → BotState → Type 0
  Spares s s' = lookup other s'.states ≡ lookup other s.states

  module _ (s : BotState) where
    Spares-available :
        (args : List Text) → Spares s (available_chat_handle scrapper chat cmd args s).1
    unfolding available_chat_handle start_tracking
    Spares-available [] = ground (
      arith,
      lookup-remove_other chat other s.states ne,
      lookup-start_tracking_other chat other s.states ne,
    )
    Spares-available (x ∷ []) = ground (
      arith,
      lookup-remove_other chat other s.states ne,
      lookup-start_tracking_other chat other s.states ne,
    )
    Spares-available (x ∷ y ∷ xs) = ground (
      arith,
      lookup-remove_other chat other s.states ne,
      lookup-start_tracking_other chat other s.states ne,
    )

    Spares-link : (args : List Text) → Spares s (await_link_handle scrapper chat cmd args s).1
    unfolding await_link_handle set_url
    Spares-link [] = ground (arith, lookup-remove_other chat other s.states ne)
    Spares-link (x ∷ []) = ground (
      arith,
      lookup-remove_other chat other s.states ne,
      lookup-set_url_other chat other s.states ne x,
    )
    Spares-link (x ∷ y ∷ xs) = ground (arith, lookup-remove_other chat other s.states ne)

    Spares-tags : (args : List Text) → Spares s (await_tags_handle scrapper chat cmd args s).1
    unfolding await_tags_handle set_tags
    Spares-tags args = ground (
      arith,
      lookup-remove_other chat other s.states ne,
      lookup-set_tags_other chat other s.states ne args,
      lookup-remove_other chat other (set_tags chat args s.states) ne,
    )

    Spares-in :
        (c : ClientState) (args : List Text) → Spares s (handle_in scrapper c chat cmd args s).1
    Spares-in available = Spares-available
    Spares-in await_link = Spares-link
    Spares-in await_tags = Spares-tags

-- A message leaves the dialogue of each other chat as it was.
pub get-handle_other :
    (scrapper : Scrapper) (u : Unicode) (text : Text) (chat other : ℕ) (s : BotState)
    → other ≢ chat
    → get other (handle scrapper u text chat s).1.states ≡ get other s.states
unfolding handle
get-handle_other scrapper u text chat other s ne =
    let (cmd, args) = parse_input u text in
    ap (λ (o : Option ChatState). stored_or (record zero_state { chat_id = other }) o)
      (Spares-in scrapper chat other ne cmd (record s { rates = s.rates ++ cmd ∷ [] })
        (get chat s.states).state args)

own_calls :
    (p : Phase) (c : ℕ) (cmd : Text) (args : List Text)
    → keep (about c) (calls_in p c cmd args) ≡ calls_in p c cmd args
unfolding calls_in keep
own_calls idle c cmd [] = ground arith
own_calls idle c cmd (x ∷ []) = ground arith
own_calls idle c cmd (x ∷ y ∷ xs) = ground arith
own_calls wants_link c cmd args = refl
own_calls (wants_tags url) c cmd args = ground arith

other_calls :
    (p : Phase) (k c : ℕ) (cmd : Text) (args : List Text)
    → c ≢ k
    → keep (about c) (calls_in p k cmd args) ≡ []
unfolding calls_in keep
other_calls idle k c cmd [] ne = ground arith
other_calls idle k c cmd (x ∷ []) ne = ground arith
other_calls idle k c cmd (x ∷ y ∷ xs) ne = ground arith
other_calls wants_link k c cmd args ne = refl
other_calls (wants_tags url) k c cmd args ne = ground arith

module _ (scrapper : Scrapper) (u : Unicode) (c : ℕ) where
  -- The machine of `c` explains the run of the messages from the state.
  abbrev Explains : List (ℕ × Text) → BotState → Type 0
  Explains ms s =
      let s' = handle_all scrapper u ms s in
      let (p, calls) = dialogue u c (phase_of (get c s.states)) ms in
      (phase_of (get c s'.states) ≡ p) × (keep (about c) s'.calls ≡ keep (about c) s.calls ++ calls)

  Explains-own :
      (text : Text) (ms : List (ℕ × Text)) (s : BotState)
      → Explains ms (handle scrapper u text c s).1
      → Explains ((c, text) ∷ ms) s
  unfolding handle_all dialogue
  Explains-own text ms s (phase, calls) =
      let (cmd, args) = parse_input u text in
      let (moved, called) = handle-follows scrapper u text c s in
      rw (==_refl c, phase, calls, moved, called, keep-append (about c) s.calls, own_calls)
        (refl, search append_assoc)

  Explains-other :
      (k : ℕ) (text : Text) (ms : List (ℕ × Text)) (s : BotState)
      → c ≢ k
      → (k == c) ≡ false
      → Explains ms (handle scrapper u text k s).1
      → Explains ((k, text) ∷ ms) s
  unfolding handle_all dialogue
  Explains-other k text ms s ne f (phase, calls) =
      let (cmd, args) = parse_input u text in
      let (moved, called) = handle-follows scrapper u text k s in
      rw
        (
          f,
          phase,
          calls,
          called,
          get-handle_other scrapper u text k c s ne,
          keep-append (about c) s.calls,
          other_calls (phase_of (get k s.states)) k c cmd args ne,
          append-nil,
        )
        (refl, refl)

-- However the messages of the chats interleave, each chat is in the phase that its own messages
-- lead to, and the calls about it are those that its own messages make, in their order.
pub handle_all-dialogue :
    (scrapper : Scrapper) (u : Unicode) (c : ℕ) (ms : List (ℕ × Text)) (s : BotState)
    → let s' = handle_all scrapper u ms s in
      let (p, calls) = dialogue u c (phase_of (get c s.states)) ms in
      (phase_of (get c s'.states) ≡ p) × (keep (about c) s'.calls ≡ keep (about c) s.calls ++ calls)
handle_all-dialogue scrapper u c [] s = unfold handle_all dialogue in (refl, rw append-nil refl)
handle_all-dialogue scrapper u c ((k, text) ∷ ms) s =
    let later = handle_all-dialogue scrapper u c ms (handle scrapper u text k s).1 in
    elim (==_cases k c) as (λ _. Explains scrapper u c ((k, text) ∷ ms) s) [
      | inl (e, f) ↦ rw e (Explains-own scrapper u c text ms s (rw e at later))
      | inr (ne, f) ↦ Explains-other scrapper u c k text ms s ne f later
    ]
