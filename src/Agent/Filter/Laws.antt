-- ===== src/Agent/Filter/Laws.antt =====
-- What the filter decides, in the words of its configuration.
use linktracker_eng.Prelude.{
  ◌≡◌, ◌↔◌, refl, Bool, true, false, ◌||◌, List, [], ◌∷◌, map, none, some, Text, any_of, arith,
  if◌then◌else◌, Unicode, to_lower, Bool-cases, inl, inr,
}
use linktracker_eng.Agent.Filter.{
  ignore, summarize, Priority, high, medium, low, no_priority, LinkEvent, FilterConfig, in_set,
  below, description_len, split_to_tokens, new_filtering_policy, check_event, find_priority,
  scan_words, priority_of, set_words,
}

abbrev pub lowered : Unicode → List Text → Text → Bool
lowered u ws = in_set (map (to_lower u) ws)

priority_of-set_words :
    (u : Unicode) (p : Priority) (ws : List Text) (m : List (Text × Priority)) (w : Text)
    → priority_of (set_words u p ws m) w ≡ (if lowered u ws w then some p else priority_of m w)
unfolding priority_of set_words any_of
priority_of-set_words u p [] m w = refl
priority_of-set_words u p (v ∷ vs) m w =
    ground (arith, priority_of-set_words u p vs ((to_lower u v, p) ∷ m) w)

-- The priority of a word by the configuration: a high word is high even where it is a low one too.
priority_of-policy :
    (u : Unicode) (cfg : FilterConfig) (w : Text)
    → priority_of (new_filtering_policy u cfg).words_priority w ≡ (
        if lowered u cfg.high_priority w
        then some high
        else if lowered u cfg.low_priority w
        then some low
        else none)
unfolding new_filtering_policy priority_of
priority_of-policy u cfg w =
    rw
      (
        priority_of-set_words u high cfg.high_priority (set_words u low cfg.low_priority []) w,
        priority_of-set_words u low cfg.low_priority [] w,
      )
      refl

scan_words_lem :
    (u : Unicode) (cfg : FilterConfig) (p : Priority) (ws : List Text)
    → scan_words (new_filtering_policy u cfg).words_priority p ws ≡ (
        if any_of (lowered u cfg.high_priority) ws
        then high
        else if any_of (lowered u cfg.low_priority) ws
        then low
        else p)
unfolding scan_words any_of
scan_words_lem u cfg p [] = refl
scan_words_lem u cfg p (w ∷ ws) =
    let known = priority_of-policy u cfg w in
    elim (Bool-cases (lowered u cfg.high_priority w)) [
      | inl e ↦ rw (known, e) refl
      | inr e ↦ elim (Bool-cases (lowered u cfg.low_priority w)) [
        | inl f ↦ rw (known, e, f, scan_words_lem u cfg low ws) (ground arith)
        | inr f ↦ rw (known, e, f, scan_words_lem u cfg p ws) refl
      ]
    ]

-- The priority of an event is high if some token of its description is a configured high word in
-- lower case, else low if some token is such a low word, else medium: the order of the words and
-- what follows a low word do not matter.
pub find_priority_lem :
    (u : Unicode) (cfg : FilterConfig) (e : LinkEvent)
    → find_priority u (new_filtering_policy u cfg) e ≡ (
        if any_of (lowered u cfg.high_priority) (split_to_tokens u e.description)
        then high
        else if any_of (lowered u cfg.low_priority) (split_to_tokens u e.description)
        then low
        else medium)
unfolding find_priority
find_priority_lem u cfg e = scan_words_lem u cfg medium (split_to_tokens u e.description)

pub check_event_lem :
    (u : Unicode) (cfg : FilterConfig) (e : LinkEvent)
    → let d = check_event u (new_filtering_policy u cfg) e in
      let bad =
        any_of (lowered u cfg.stop_words) (split_to_tokens u e.description)
        || in_set cfg.excluded_authors e.author
        || below (description_len e) cfg.min_length in
      ((d.action ≡ ignore) ↔ (bad ≡ true))
      × ((d.priority ≡ no_priority) ↔ (bad ≡ true))
      × ((d.action ≡ summarize) ↔ ((bad || below (description_len e) cfg.threshold) ≡ false))
unfolding check_event new_filtering_policy
check_event_lem u cfg e = ground (arith, find_priority_lem u cfg e)
