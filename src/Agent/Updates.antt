-- ===== src/Agent/Updates.antt =====
-- internal/agent/application/dto.go: the updates that the agent reads and those that it sends.
use linktracker_eng.Prelude.{
  ℕ, suc, ◌≤◌, ◌≡◌, refl, sym, Bool, true, ◌⊎◌, inl, inr, List, [], ◌∷◌, ◌++◌, Option, none, some,
  Text, codes, arith, if◌then◌else◌, ◌==◌, decimal, is_nil, All, any_of, Bool-cases,
}
use linktracker_eng.Agent.Filter.{LinkEvent, Priority, low, is_higher_than, weight}

pub record RawUpdate : Type 0 where
  pub id : ℕ
  pub link : Text
  pub event_type : Text
  pub description : Text
  pub author : Text
  pub chat_ids : List ℕ
  pub updated_at : ℕ

pub data Invalid : Type 0 where
  nil_update empty_chat_ids : Invalid

-- Validate, of a pointer that may be nil
unfoldable pub validate : Option RawUpdate → Option Invalid
validate none = some nil_update
validate (some u) = if is_nil u.chat_ids then some empty_chat_ids else none

unfoldable pub to_event : RawUpdate → LinkEvent
to_event u = record { id = u.id; link = u.link; description = u.description; author = u.author }

pub record ProcessedUpdate : Type 0 where
  pub id : ℕ
  pub link : Text
  pub description : Text
  pub chat_ids : List ℕ
  pub priority : Priority

-- formatDescription; `format_time` is `Format(time.RFC3339)`
unfoldable pub format_description : (ℕ → Text) → Text → Text → ℕ → Text → Text → Text
format_description format_time event_type author changed preview event_url =
    codes "["
    ++ event_type
    ++ codes "]\nby: "
    ++ author
    ++ codes "\nat: "
    ++ format_time changed
    ++ codes "\n\n"
    ++ preview
    ++ codes "\n\n"
    ++ event_url

-- UpdateFromEvent
unfoldable pub update_from_event :
    (ℕ → Text) → LinkEvent → Text → ℕ → List ℕ → Priority → ProcessedUpdate
unfolding format_description
update_from_event format_time e event_type at chats p = record {
  id = e.id;
  link = e.link;
  description = format_description format_time event_type e.author at e.description e.link;
  chat_ids = chats;
  priority = p;
}

-- The loop of MaxPriority.
unfoldable pub max_from : Priority → List ProcessedUpdate → Priority
max_from p [] = p
max_from p (u ∷ us) = max_from (if is_higher_than u.priority p then u.priority else p) us

unfoldable pub max_priority : List ProcessedUpdate → Priority
unfolding max_from
max_priority us = max_from low us

abbrev line_end : List ProcessedUpdate → Text
line_end rest = if is_nil rest then [] else codes "\n"

-- The lines of formatGroupDescription, numbered from `i`.
unfoldable pub group_lines : ℕ → List ProcessedUpdate → Text
unfolding decimal
group_lines i [] = []
group_lines i (u ∷ us) =
    decimal i ++ codes ") " ++ u.description ++ line_end us ++ group_lines (suc i) us

unfoldable pub format_group_description : List ProcessedUpdate → Text
unfolding group_lines
format_group_description us = codes "You have several updates:\n\n" ++ group_lines 1 us

abbrev pub last_id : ProcessedUpdate → List ProcessedUpdate → ℕ
last_id u [] = u.id
last_id u (v ∷ us) = last_id v us

-- GroupUpdates; on no updates, `updates[len(updates)-1]` panics
unfoldable pub group_updates : List ProcessedUpdate → ℕ → Option ProcessedUpdate
unfolding format_group_description max_priority
group_updates [] chat = none
group_updates (u ∷ us) chat = some (record {
  id = last_id u us;
  link = [];
  description = format_group_description (u ∷ us);
  chat_ids = chat ∷ [];
  priority = max_priority (u ∷ us);
})

max_from-bounds :
    (p : Priority) (us : List ProcessedUpdate) (q : Priority)
    → max_from p us ≡ q
    → (weight p ≤ weight q) × All (λ u. weight u.priority ≤ weight q) us
unfolding max_from
max_from-bounds p [] q h = (ground arith, tt)
max_from-bounds p (u ∷ us) q h =
    let (first, rest) =
      max_from-bounds (if is_higher_than u.priority p then u.priority else p) us q h in
    (ground (arith, first), (ground (arith, first), rest))

abbrev pub has_priority : Priority → List ProcessedUpdate → Bool
has_priority p = any_of (λ u. weight u.priority == weight p)

max_from-attained :
    (p : Priority) (us : List ProcessedUpdate) (q : Priority)
    → max_from p us ≡ q
    → (q ≡ p) ⊎ (has_priority q us ≡ true)
unfolding max_from any_of
max_from-attained p [] q h = inl (sym h)
max_from-attained p (u ∷ us) q h =
    elim (max_from-attained (if is_higher_than u.priority p then u.priority else p) us q h) [
      | inl f ↦ elim (Bool-cases (is_higher_than u.priority p)) [
        | inl e ↦ inr (rw f (ground arith))
        | inr e ↦ inl (rw e at f)
      ]
      | inr f ↦ inr (ground arith)
    ]

-- The priority of a group is at least that of each of its updates, and is low or that of one of
-- them.
pub max_priority_lem :
    (us : List ProcessedUpdate)
    → All (λ u. weight u.priority ≤ weight (max_priority us)) us
      × ((max_priority us ≡ low) ⊎ (has_priority (max_priority us) us ≡ true))
unfolding max_priority
max_priority_lem us = ((max_from-bounds low us _ refl).1, max_from-attained low us _ refl)
