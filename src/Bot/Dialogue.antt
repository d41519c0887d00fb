-- ===== src/Bot/Dialogue.antt =====
-- The dialogue that the bot is to hold with one chat, as a machine of three phases, and that
-- Handle holds it: the memory of the chat follows the machine, and the calls are the machine's.
use linktracker_eng.Prelude.{
  ℕ, ◌≡◌, refl, true, false, ◌||◌, List, [], ◌∷◌, ◌++◌, Text, codes, text_eq, text_eq_other, arith,
  if◌then◌else◌, Unicode,
}
use mathlib.Core.List.{append-nil}
use linktracker_eng.Bot.States.{
  ChatState, ClientState, available, await_link, await_tags, get, start_tracking, set_url, set_tags,
  lookup-remove, lookup-start_tracking, lookup-set_url, get-set_tags,
}
use linktracker_eng.Bot.Command.{
  Call, register_chat, list_links, track_link, add_tags, untrack_link, clear_tags, Scrapper,
  BotState, parse_input, available_chat_handle, await_link_handle, await_tags_handle, handle,
  handle_in,
}

pub data Phase : Type 0 where
  idle wants_link : Phase
  wants_tags : Text → Phase

abbrev pub phase_of : ChatState → Phase
phase_of s = elim s.state [
  | available ↦ idle
  | await_link ↦ wants_link
  | await_tags ↦ wants_tags s.url
]

abbrev after_url : List Text → Phase
after_url (url ∷ []) = wants_tags url
after_url _ = wants_link

-- The phase after a command.
unfoldable pub next_phase : Phase → Text → List Text → Phase
next_phase idle cmd args = if text_eq cmd (codes "track") then wants_link else idle
next_phase wants_link cmd args = if text_eq cmd (codes "url") then after_url args else idle
next_phase (wants_tags url) cmd args = idle

abbrev one_link : (Text → Call) → List Text → List Call
one_link f (url ∷ []) = f url ∷ []
one_link f _ = []

abbrev link_and_tags : (Text → List Text → Call) → List Text → List Call
link_and_tags f (url ∷ tag ∷ tags) = f url (tag ∷ tags) ∷ []
link_and_tags f _ = []

abbrev idle_calls : ℕ → Text → List Text → List Call
idle_calls chat cmd args =
    if text_eq cmd (codes "start")
    then register_chat chat ∷ []
    else if text_eq cmd (codes "help") || text_eq cmd (codes "track")
    then []
    else if text_eq cmd (codes "untrack")
    then one_link (untrack_link chat) args
    else if text_eq cmd (codes "list")
    then list_links chat ∷ []
    else if text_eq cmd (codes "addtags")
    then link_and_tags (add_tags chat) args
    else if text_eq cmd (codes "cleartags")
    then one_link (clear_tags chat) args
    else []

-- The calls of the scrapper that a command makes in a phase.
unfoldable pub calls_in : Phase → ℕ → Text → List Text → List Call
calls_in idle chat cmd args = idle_calls chat cmd args
calls_in wants_link chat cmd args = []
calls_in (wants_tags url) chat cmd args =
    if text_eq cmd (codes "tags") then track_link chat url args ∷ [] else []

no_start : (cmd : Text) → text_eq cmd (codes "start") ≡ true → text_eq cmd (codes "track") ≡ false
unfolding text_eq
no_start cmd = text_eq_other cmd (codes "start") (codes "track") refl

no_help : (cmd : Text) → text_eq cmd (codes "help") ≡ true → text_eq cmd (codes "track") ≡ false
unfolding text_eq
no_help cmd = text_eq_other cmd (codes "help") (codes "track") refl

module _ (scrapper : Scrapper) (chat : ℕ) (cmd : Text) (args : List Text) (s : BotState) where
  abbrev Follows : Phase → (r : BotState) → Type 0
  Follows p r =
      (phase_of (get chat r.states) ≡ next_phase p cmd args)
      × (r.calls ≡ s.calls ++ calls_in p chat cmd args)

  Follows-available :
      phase_of (get chat s.states) ≡ idle
      → Follows idle (available_chat_handle scrapper chat cmd args s).1
  unfolding available_chat_handle next_phase calls_in get start_tracking
  Follows-available h = by_args args
    where
      by_args :
          (xs : List Text)
          → (phase_of (get chat (available_chat_handle scrapper chat cmd xs s).1.states)
              ≡ next_phase idle cmd xs)
            × ((available_chat_handle scrapper chat cmd xs s).1.calls
                ≡ s.calls ++ calls_in idle chat cmd xs)
      by_args [] = ground (
        arith,
        no_start cmd,
        no_help cmd,
        lookup-remove chat s.states,
        lookup-start_tracking chat s.states,
        append-nil s.calls,
      )
      by_args (x ∷ []) = ground (
        arith,
        no_start cmd,
        no_help cmd,
        lookup-remove chat s.states,
        lookup-start_tracking chat s.states,
        append-nil s.calls,
      )
      by_args (x ∷ y ∷ xs) = ground (
        arith,
        no_start cmd,
        no_help cmd,
        lookup-remove chat s.states,
        lookup-start_tracking chat s.states,
        append-nil s.calls,
      )

  Follows-link :
      phase_of (get chat s.states) ≡ wants_link
      → Follows wants_link (await_link_handle scrapper chat cmd args s).1
  unfolding await_link_handle next_phase calls_in get set_url
  Follows-link h = by_args args
    where
      by_args :
          (xs : List Text)
          → (phase_of (get chat (await_link_handle scrapper chat cmd xs s).1.states)
              ≡ next_phase wants_link cmd xs)
            × ((await_link_handle scrapper chat cmd xs s).1.calls
                ≡ s.calls ++ calls_in wants_link chat cmd xs)
      by_args [] = ground (arith, lookup-remove chat s.states, append-nil s.calls)
      by_args (x ∷ []) =
          ground
            (arith, lookup-remove chat s.states, lookup-set_url chat x s.states, append-nil s.calls)
      by_args (x ∷ y ∷ xs) = ground (arith, lookup-remove chat s.states, append-nil s.calls)

  Follows-tags :
      (url : Text)
      → phase_of (get chat s.states) ≡ wants_tags url
      → Follows (wants_tags url) (await_tags_handle scrapper chat cmd args s).1
  unfolding await_tags_handle next_phase calls_in get set_tags
  Follows-tags url h = ground (
    arith,
    lookup-remove chat s.states,
    lookup-remove chat (set_tags chat args s.states),
    get-set_tags chat args s.states,
    append-nil s.calls,
  )

  Follows-in :
      (c : ClientState)
      → (get chat s.states).state ≡ c
      → Follows (phase_of (get chat s.states)) (handle_in scrapper c chat cmd args s).1
  Follows-in available e = rw e (Follows-available (rw e refl))
  Follows-in await_link e = rw e (Follows-link (rw e refl))
  Follows-in await_tags e = rw e (Follows-tags (get chat s.states).url (rw e refl))

-- Handle moves the phase of the chat that writes as the machine does, and makes the calls of the
-- machine, whatever the scrapper answers.
pub handle-follows :
    (scrapper : Scrapper) (u : Unicode) (text : Text) (chat : ℕ) (s : BotState)
    → let p = phase_of (get chat s.states) in
      let (cmd, args) = parse_input u text in
      let s' = (handle scrapper u text chat s).1 in
      (phase_of (get chat s'.states) ≡ next_phase p cmd args)
      × (s'.calls ≡ s.calls ++ calls_in p chat cmd args)
unfolding handle
handle-follows scrapper u text chat s =
    let (cmd, args) = parse_input u text in
    Follows-in scrapper chat cmd args (record s { rates = s.rates ++ cmd ∷ [] }) _ refl
