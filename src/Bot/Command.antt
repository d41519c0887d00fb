-- ===== src/Bot/Command.antt =====
-- CommandUseCase of internal/bot/application/command_service.go. The scrapper answers each call as
-- it pleases (`Scrapper`, a function of the calls made so far); the calls are logged in order.
use linktracker_eng.Prelude.{
  ℕ, Bool, List, [], ◌∷◌, ◌++◌, Option, none, some, Text, codes, text_eq, ◌==◌, if◌then◌else◌,
  Error, Result, ok, err, is_error, Unicode, to_lower, fields_func, is_space,
}
use linktracker_eng.Scrapper.Tables.{LinkSubscription}
use linktracker_eng.Bot.States.{
  ChatStates, ClientState, available, await_link, await_tags, get, start_tracking, set_url,
  set_tags, remove,
}
use linktracker_eng.Bot.Texts.{
  start_msg, default_msg, track_start_msg, track_await_tags_msg, track_cancel_msg, track_done_msg,
  track_exists_msg, untrack_usage_msg, untrack_done_msg, untrack_not_found, add_tags_usage_msg,
  add_tags_done_msg, clear_tags_usage_msg, clear_tags_done_msg, list_empty_msg, start_exists_msg,
  chat_not_found_msg, bad_request_msg, unavailable_msg, server_error_msg, supported_commands,
  render_links, render_help,
}

-- internal/bot/application/errors.go
pub data BotError : Type 0 where
  already_registered already_tracked chat_not_found link_not_found bad_request unavailable :
      BotError

abbrev tag_of : BotError → ℕ
tag_of already_registered = 0
tag_of already_tracked = 1
tag_of chat_not_found = 2
tag_of link_not_found = 3
tag_of bad_request = 4
tag_of unavailable = 5

abbrev pub same_error : BotError → BotError → Bool
same_error a b = tag_of a == tag_of b

-- The calls of the interface Scrapper.
pub data Call : Type 0 where
  register_chat list_links : ℕ → Call
  track_link add_tags : ℕ → Text → List Text → Call
  untrack_link clear_tags : ℕ → Text → Call

pub record Scrapper : Type 0 where
  pub outcome : List Call → Call → Result BotError (Unit {0})
  pub links : List Call → Call → Result BotError (List LinkSubscription)

pub record BotState : Type 0 where
  pub states : ChatStates
  pub calls : List Call
  pub rates : List Text  -- what AddCommandRate was given

abbrev pub Answer : Type 0
Answer = Text × Option (Error BotError)

abbrev pub reply : Text → Answer
reply msg = (msg, none)

-- mapError
unfoldable pub map_error : Error BotError → Answer
unfolding is_error
map_error e =
    if is_error same_error e already_tracked
    then reply track_exists_msg
    else if is_error same_error e already_registered
    then reply start_exists_msg
    else if is_error same_error e link_not_found
    then reply untrack_not_found
    else if is_error same_error e chat_not_found
    then reply chat_not_found_msg
    else if is_error same_error e bad_request
    then reply bad_request_msg
    else if is_error same_error e unavailable
    then (unavailable_msg, some e)
    else (server_error_msg, some e)

-- strings.TrimPrefix(s, "/")
abbrev pub without_slash : Text → Text
without_slash [] = []
without_slash (c ∷ s) = if c == b'/' then s else c ∷ s

abbrev parsed_command : Unicode → Text → List Text → Text × List Text
parsed_command u [] args = ([], [])
parsed_command u (c ∷ cmd) args = (to_lower u (c ∷ cmd), args)

abbrev parsed : Unicode → List Text → Text × List Text
parsed u [] = ([], [])
parsed u (p ∷ ps) = parsed_command u (without_slash p) ps

-- parseInput
unfoldable pub parse_input : Unicode → Text → Text × List Text
unfolding fields_func is_space to_lower
parse_input u msg = parsed u (fields_func is_space msg)

module _ (scrapper : Scrapper) where
  abbrev answered : Text → Result BotError (Unit {0}) → Answer
  answered msg (ok _) = reply msg
  answered msg (err e) = map_error e

  abbrev listed : Result BotError (List LinkSubscription) → Answer
  listed (err e) = map_error e
  listed (ok []) = reply list_empty_msg
  listed (ok (l ∷ ls)) = reply (render_links (l ∷ ls))

  abbrev called : Call → BotState → BotState
  called c s = record s { calls = s.calls ++ c ∷ [] }

  -- if err := uc.scrapper.X(...); err != nil { return mapError(err) }; return msg, nil
  abbrev call : Call → Text → BotState → Answer × BotState
  call c msg s = (answered msg (scrapper.outcome s.calls c), called c s)

  abbrev call_list : Call → BotState → Answer × BotState
  call_list c s = (listed (scrapper.links s.calls c), called c s)

  abbrev say : Text → BotState → Answer × BotState
  say msg s = (reply msg, s)

  abbrev removed : ℕ → BotState → BotState
  removed chat s = record s { states = remove chat s.states }

  abbrev with_url : ℕ → List Text → BotState → Answer × BotState
  with_url chat (url ∷ []) s =
      say track_await_tags_msg (record s { states = set_url chat url s.states })
  with_url chat _ s = say (render_help supported_commands) s

  abbrev untrack : ℕ → List Text → BotState → Answer × BotState
  untrack chat (url ∷ []) s = call (untrack_link chat url) untrack_done_msg s
  untrack chat _ s = say untrack_usage_msg s

  abbrev tag_link : ℕ → List Text → BotState → Answer × BotState
  tag_link chat (url ∷ tag ∷ tags) s = call (add_tags chat url (tag ∷ tags)) add_tags_done_msg s
  tag_link chat _ s = say add_tags_usage_msg s

  abbrev untag_link : ℕ → List Text → BotState → Answer × BotState
  untag_link chat (url ∷ []) s = call (clear_tags chat url) clear_tags_done_msg s
  untag_link chat _ s = say clear_tags_usage_msg s

  unfoldable pub available_chat_handle : ℕ → Text → List Text → BotState → Answer × BotState
  unfolding remove start_tracking map_error render_links render_help supported_commands text_eq
  available_chat_handle chat cmd args s =
      if text_eq cmd (codes "start")
      then call (register_chat chat) start_msg (removed chat s)
      else if text_eq cmd (codes "help")
      then say (render_help supported_commands) s
      else if text_eq cmd (codes "track")
      then say track_start_msg (record s { states = start_tracking chat s.states })
      else if text_eq cmd (codes "untrack")
      then untrack chat args s
      else if text_eq cmd (codes "list")
      then call_list (list_links chat) s
      else if text_eq cmd (codes "addtags")
      then tag_link chat args s
      else if text_eq cmd (codes "cleartags")
      then untag_link chat args s
      else say default_msg s

  unfoldable pub await_link_handle : ℕ → Text → List Text → BotState → Answer × BotState
  unfolding remove set_url render_help supported_commands text_eq
  await_link_handle chat cmd args s =
      if text_eq cmd (codes "url")
      then with_url chat args s
      else if text_eq cmd (codes "cancel")
      then say track_cancel_msg (removed chat s)
      else say track_cancel_msg (removed chat s)

  abbrev track_session : ℕ → BotState → Answer × BotState
  track_session chat s =
      let session = get chat s.states in
      let (answer, s') = call (track_link chat session.url session.tags) track_done_msg s in
      (answer, removed chat s')

  unfoldable pub await_tags_handle : ℕ → Text → List Text → BotState → Answer × BotState
  unfolding remove set_tags get map_error text_eq
  await_tags_handle chat cmd args s =
      if text_eq cmd (codes "tags")
      then track_session chat (record s { states = set_tags chat args s.states })
      else if text_eq cmd (codes "cancel")
      then say track_cancel_msg (removed chat s)
      else say track_cancel_msg (removed chat s)

  abbrev pub handle_in : ClientState → ℕ → Text → List Text → BotState → Answer × BotState
  handle_in await_link chat cmd args s = await_link_handle chat cmd args s
  handle_in await_tags chat cmd args s = await_tags_handle chat cmd args s
  handle_in available chat cmd args s = available_chat_handle chat cmd args s

  -- Handle
  unfoldable pub handle : Unicode → Text → ℕ → BotState → Answer × BotState
  unfolding get parse_input available_chat_handle await_link_handle await_tags_handle
  handle u text chat s =
      let session = get chat s.states in
      let (cmd, args) = parse_input u text in
      handle_in session.state chat cmd args (record s { rates = s.rates ++ cmd ∷ [] })
