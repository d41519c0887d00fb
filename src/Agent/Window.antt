-- ===== src/Agent/Window.antt =====
-- AgentService of internal/agent/application/process_case.go. The arguments are what the code leaves
-- to its surroundings: the summariser, the time format, the order in which the workers hand in
-- their updates (and which ones a cancelled context skips), the two orders in which `range`
-- runs through the map of groups, and the outbox.
pub mod Batches
pub mod Rounds
pub mod Content
pub mod Delivery
use linktracker_eng.Prelude.{
  ℕ, ◌+◌, Bool, true, false, List, [], ◌∷◌, ◌++◌, map, Option, none, some, Text, ltb, leb, ◌==◌,
  ◌-◌, take, if◌then◌else◌, Unicode, trim_space, is_nil, Result, ok, err, Error, wrap, rune_bound,
  stray,
}
use linktracker_eng.Exec.{Exec, or_return}
use linktracker_eng.Agent.Filter.{
  FilteringPolicy, Decision, LinkEvent, check_event, pass, ignore, summarize,
  with_summarized_description,
}
use linktracker_eng.Agent.Updates.{
  RawUpdate, ProcessedUpdate, to_event, update_from_event, group_updates,
}

abbrev pub preview_limit : ℕ
preview_limit = 200

-- The length in UTF-8.
abbrev pub rune_len : ℕ → ℕ
rune_len c =
    if ltb c 0x80
    then 1
    else if ltb c 0x800
    then 2
    else if ltb c 0x10000
    then 3
    else if ltb c rune_bound
    then 4
    else 1

unfoldable pub byte_len : Text → ℕ
byte_len [] = 0
byte_len (c ∷ s) = rune_len c + byte_len s

-- s[:n], where the bytes of a rune that is cut belong to no rune any more; `encoded` are the bytes
-- of a rune
module _ (encoded : ℕ → List ℕ) where
  abbrev cut_bytes : ℕ → List ℕ → Text
  cut_bytes n bs = map stray (take n bs)

  unfoldable pub cut : ℕ → Text → Text
  cut n [] = []
  cut n (c ∷ s) =
      let rest = cut (n - rune_len c) s in
      if leb (rune_len c) n then c ∷ rest else cut_bytes n (encoded c)

  -- trimPreview
  unfoldable pub trim_preview : Text → Text
  unfolding cut byte_len trim_space
  trim_preview d =
      let s = trim_space d in
      if leb (byte_len s) preview_limit then d else trim_space (cut preview_limit s)

pub record Env : Type 1 where
  pub unicode : Unicode
  pub policy : FilteringPolicy
  pub encoded : ℕ → List ℕ
  pub format_time : ℕ → Text
  pub summarizer : Text → Result (Unit {0}) Text

module _ (env : Env) where
  abbrev or_preview : Text → Result (Unit {0}) Text → Text
  or_preview d (ok summary) = summary
  or_preview d (err e) = trim_preview env.encoded d

  abbrev prepared : RawUpdate → Decision → Option ProcessedUpdate
  prepared raw d = elim d.action [
    | ignore ↦ none
    | pass ↦ some (
        update_from_event env.format_time (to_event raw) raw.event_type raw.updated_at raw.chat_ids
          d.priority)
    | summarize ↦ some (
        update_from_event env.format_time
          (with_summarized_description (or_preview raw.description (env.summarizer raw.description))
            (to_event raw))
          raw.event_type raw.updated_at raw.chat_ids d.priority)
  ]

  -- PrepareUpdate
  unfoldable pub prepare_update : RawUpdate → Option ProcessedUpdate
  unfolding check_event trim_preview update_from_event to_event
  prepare_update raw = prepared raw (check_event env.unicode env.policy (to_event raw))

  abbrev cons_some : Option ProcessedUpdate → List ProcessedUpdate → List ProcessedUpdate
  cons_some none us = us
  cons_some (some u) us = u ∷ us

  -- processUpdates, on the updates in the order in which the workers finish them
  unfoldable pub process_updates : List RawUpdate → List ProcessedUpdate
  unfolding prepare_update
  process_updates [] = []
  process_updates (raw ∷ rest) = cons_some (prepare_update raw) (process_updates rest)

abbrev pub Groups : Type 0
Groups = List (ℕ × List ProcessedUpdate)

-- m[key]
unfoldable pub group_of : ℕ → Groups → List ProcessedUpdate
group_of id [] = []
group_of id ((k, us) ∷ rest) = let found = group_of id rest in if k == id then us else found

-- groups[id] = append(groups[id], u)
unfoldable pub add_to_group : ℕ → ProcessedUpdate → Groups → Groups
add_to_group id u [] = (id, u ∷ []) ∷ []
add_to_group id u ((k, us) ∷ rest) =
    let others = add_to_group id u rest in
    if k == id then (k, us ++ u ∷ []) ∷ rest else (k, us) ∷ others

unfoldable pub add_chats : ProcessedUpdate → List ℕ → Groups → Groups
unfolding add_to_group
add_chats u [] g = g
add_chats u (id ∷ ids) g = add_chats u ids (add_to_group id u g)

unfoldable pub grouped : List ProcessedUpdate → Groups → Groups
unfolding add_chats
grouped [] g = g
grouped (u ∷ us) g = grouped us (add_chats u u.chat_ids g)

abbrev pub keys : Groups → List ℕ
keys = map (λ p. p.0)

abbrev pub Batch : Type 0
Batch = List (ℕ × List ℕ)

unfoldable pub chats_of : ℕ → Batch → Option (List ℕ)
chats_of id [] = none
chats_of id ((k, cs) ∷ rest) = let found = chats_of id rest in if k == id then some cs else found

-- batch[id] = append(batch[id], chat)
unfoldable pub add_chat : ℕ → ℕ → Batch → Batch
add_chat id chat [] = (id, chat ∷ []) ∷ []
add_chat id chat ((k, cs) ∷ rest) =
    let others = add_chat id chat rest in
    if k == id then (k, cs ++ chat ∷ []) ∷ rest else (k, cs) ∷ others

-- delete(batch, id)
unfoldable pub drop_batch : ℕ → Batch → Batch
drop_batch id [] = []
drop_batch id ((k, cs) ∷ rest) =
    let others = drop_batch id rest in if k == id then others else (k, cs) ∷ others

abbrev pub add_single : ℕ → List ProcessedUpdate → Batch → Batch
add_single chat (u ∷ []) b = add_chat u.id chat b
add_single chat _ b = b

-- The loop that collects, for each update, the chats which have it alone.
unfoldable pub batched : Groups → List ℕ → Batch → Batch
unfolding group_of add_chat
batched g [] b = b
batched g (chat ∷ chats) b = batched g chats (add_single chat (group_of chat g) b)

abbrev pub cons_delivery :
    Option ProcessedUpdate → Option (List ProcessedUpdate) → Option (List ProcessedUpdate)
cons_delivery none out = none
cons_delivery (some u) none = none
cons_delivery (some u) (some us) = some (u ∷ us)

abbrev pub deliver_single :
    ProcessedUpdate
    → Option (List ℕ)
    → Option (List ProcessedUpdate)
    → Option (List ProcessedUpdate)
    → Option (List ProcessedUpdate)
deliver_single u none sent unsent = unsent
deliver_single u (some ids) sent unsent = cons_delivery (some (record u { chat_ids = ids })) sent

-- The loop that makes the deliveries; none for a panic.
unfoldable pub delivered : Groups → List ℕ → Batch → Option (List ProcessedUpdate)
unfolding group_of chats_of drop_batch group_updates
delivered g [] b = some []
delivered g (chat ∷ chats) b = elim (group_of chat g) [
  | [] ↦ cons_delivery (group_updates [] chat) (delivered g chats b)
  | u ∷ us ↦ elim us [
    | [] ↦
        deliver_single u (chats_of u.id b) (delivered g chats (drop_batch u.id b))
          (delivered g chats b)
    | v ∷ vs ↦ cons_delivery (group_updates (u ∷ v ∷ vs) chat) (delivered g chats b)
  ]
]

-- The deliveries that HandleUpdatesWindow makes of the processed updates.
unfoldable pub deliveries :
    (List ℕ → List ℕ) → (List ℕ → List ℕ) → List ProcessedUpdate → Option (List ProcessedUpdate)
unfolding grouped batched delivered
deliveries order₁ order₂ processed =
    let groups = grouped processed [] in
    delivered groups (order₂ (keys groups)) (batched groups (order₁ (keys groups)) [])

-- HandleUpdatesWindow; none for a panic
module _ {E S : Type 0} (add_batch : List ProcessedUpdate → Exec E S (Unit {0})) where
  abbrev pub sent : Option (List ProcessedUpdate) → S → Option (Result E (Unit {0}) × S)
  sent none s = none
  sent (some []) s = some (ok tt, s)
  sent (some (d ∷ ds)) s = some (or_return (add_batch (d ∷ ds)) (wrap "add batch to outbox") s)

  unfoldable pub handle_updates_window :
      Env
      → (List RawUpdate → List RawUpdate)
      → (List ℕ → List ℕ)
      → (List ℕ → List ℕ)
      → List RawUpdate
      → S
      → Option (Result E (Unit {0}) × S)
  unfolding process_updates deliveries or_return
  handle_updates_window env finished order₁ order₂ [] s = some (ok tt, s)
  handle_updates_window env finished order₁ order₂ (raw ∷ raws) s =
      sent (deliveries order₁ order₂ (process_updates env (finished (raw ∷ raws)))) s
