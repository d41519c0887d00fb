-- ===== src/Agent/Filter.antt =====
-- internal/agent/domain: decision.go, event.go and filter.go. Sets are lists, a map of words is an
-- association list whose first entry for a word is the last one written.
pub mod Laws
use linktracker_eng.Prelude.{
  ℕ, Bool, true, false, not, ◌||◌, ◌&&◌, List, [], ◌∷◌, ◌++◌, map, Option, none, some, Text,
  text_eq, ltb, length, any_of, if◌then◌else◌, Unicode, to_lower, fields_func, ℤ, pos, negsuc,
}

pub data Action : Type 0 where
  pass ignore summarize : Action

-- `no_priority` is the empty string.
pub data Priority : Type 0 where
  high medium low no_priority : Priority

-- weight
abbrev pub weight : Priority → ℕ
weight high = 3
weight medium = 2
weight low = 1
weight no_priority = 0

-- IsHigherThan
abbrev pub is_higher_than : Priority → Priority → Bool
is_higher_than p q = ltb (weight q) (weight p)

pub record Decision : Type 0 where
  pub action : Action
  pub priority : Priority

pub record LinkEvent : Type 0 where
  pub id : ℕ
  pub link : Text
  pub description : Text
  pub author : Text

-- SplitToTokens
unfoldable pub split_to_tokens : Unicode → Text → List Text
unfolding to_lower fields_func
split_to_tokens u d = fields_func (λ r. not (u.is_letter r) && not (u.is_digit r)) (to_lower u d)

-- DescriptionLen, in runes
abbrev pub description_len : LinkEvent → ℕ
description_len e = length e.description

abbrev pub with_summarized_description : Text → LinkEvent → LinkEvent
with_summarized_description d e = record e { description = d }

pub record FilterConfig : Type 0 where
  pub stop_words : List Text
  pub excluded_authors : List Text
  pub low_priority : List Text
  pub high_priority : List Text
  pub min_length : ℤ
  pub threshold : ℤ

pub record FilteringPolicy : Type 0 where
  pub stop_words : List Text
  pub excluded_authors : List Text
  pub words_priority : List (Text × Priority)
  pub min_length : ℤ
  pub threshold : ℤ

abbrev pub in_set : List Text → Text → Bool
in_set ws w = any_of (text_eq w) ws

-- m[w]
unfoldable pub priority_of : List (Text × Priority) → Text → Option Priority
priority_of [] w = none
priority_of ((v, p) ∷ rest) w =
    let found = priority_of rest w in if text_eq w v then some p else found

-- for i := range words { m[strings.ToLower(words[i])] = p }
unfoldable pub set_words :
    Unicode → Priority → List Text → List (Text × Priority) → List (Text × Priority)
unfolding to_lower
set_words u p [] m = m
set_words u p (w ∷ ws) m = set_words u p ws ((to_lower u w, p) ∷ m)

unfoldable pub new_filtering_policy : Unicode → FilterConfig → FilteringPolicy
unfolding set_words to_lower
new_filtering_policy u cfg = record {
  stop_words = map (to_lower u) cfg.stop_words;
  excluded_authors = cfg.excluded_authors;
  words_priority = set_words u high cfg.high_priority (set_words u low cfg.low_priority []);
  min_length = cfg.min_length;
  threshold = cfg.threshold;
}

-- n < z
abbrev pub below : ℕ → ℤ → Bool
below n (pos m) = ltb n m
below n (negsuc m) = false

-- containsStopWord
unfoldable pub contains_stop_word : Unicode → FilteringPolicy → LinkEvent → Bool
unfolding split_to_tokens any_of
contains_stop_word u l e = any_of (in_set l.stop_words) (split_to_tokens u e.description)

unfoldable pub is_author_excluded : FilteringPolicy → LinkEvent → Bool
unfolding any_of
is_author_excluded l e = in_set l.excluded_authors e.author

abbrev pub is_high : Option Priority → Bool
is_high (some high) = true
is_high _ = false

abbrev pub or_else : Priority → Option Priority → Priority
or_else p none = p
or_else p (some q) = q

-- The loop of findPriority.
unfoldable pub scan_words : List (Text × Priority) → Priority → List Text → Priority
unfolding priority_of
scan_words m p [] = p
scan_words m p (w ∷ ws) =
    let found = priority_of m w in
    let rest = scan_words m (or_else p found) ws in if is_high found then high else rest

unfoldable pub find_priority : Unicode → FilteringPolicy → LinkEvent → Priority
unfolding scan_words split_to_tokens
find_priority u l e = scan_words l.words_priority medium (split_to_tokens u e.description)

unfoldable pub check_event : Unicode → FilteringPolicy → LinkEvent → Decision
unfolding contains_stop_word is_author_excluded find_priority
check_event u l e =
    if contains_stop_word u l e || is_author_excluded l e || below (description_len e) l.min_length
    then record { action = ignore; priority = no_priority }
    else record {
      action = if below (description_len e) l.threshold then pass else summarize;
      priority = find_priority u l e;
    }
