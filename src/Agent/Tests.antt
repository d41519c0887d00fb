-- ===== src/Agent/Tests.antt =====
-- The agent's theorems on a small window.
use linktracker_eng.Prelude.{
  arith, ℕ, ◌≡◌, ◌↔◌, refl, true, false, ◌||◌, ◌&&◌, List, [], ◌∷◌, some, codes, Unicode,
  ascii_lower, leb, is_nil, any_of, All, if◌then◌else◌, pos,
}
use linktracker_eng.Agent.Filter.{
  FilterConfig, LinkEvent, Priority, high, low, no_priority, ignore, summarize, check_event,
  new_filtering_policy, split_to_tokens, in_set, below, description_len,
}
use linktracker_eng.Agent.Filter.Laws.{lowered, check_event_lem}
use linktracker_eng.Agent.Updates.{ProcessedUpdate, format_group_description, max_priority}
use linktracker_eng.Agent.Window.{deliveries}
use linktracker_eng.Agent.Window.Batches.{updates_for}
use linktracker_eng.Agent.Window.Rounds.{mentions}
use linktracker_eng.Agent.Window.Content.{Right, deliveries-Right}
use linktracker_eng.Agent.Window.Delivery.{deliveries_once}

abbrev pub ascii : Unicode
ascii = record {
  lower = ascii_lower;
  is_letter = λ c. leb b'a' c && leb c b'z';
  is_digit = λ c. leb b'0' c && leb c b'9';
  lower_ascii = λ c h. refl;
}

abbrev update : ℕ → List ℕ → Priority → ProcessedUpdate
update id chats p = record { id = id; link = []; description = []; chat_ids = chats; priority = p }

-- Chat 1 has two updates, chats 2 and 3 have one each.
abbrev window : List ProcessedUpdate
window = update 10 (1 ∷ 2 ∷ []) low ∷ update 11 (1 ∷ 3 ∷ []) high ∷ []

deliveries_once_example :
    (ds : List ProcessedUpdate) × (deliveries (λ ks. ks) (λ ks. ks) window ≡ some ds)
    × ((c : ℕ) → mentions c ds ≡ (if is_nil (updates_for c window) then 0 else 1))
deliveries_once_example = deliveries_once (λ ks. ks) (λ ks. ks) window (λ c ks. refl) (λ c ks. refl)

abbrev pub config : FilterConfig
config = record {
  stop_words = codes "SPAM" ∷ [];
  excluded_authors = [];
  low_priority = codes "typo" ∷ [];
  high_priority = codes "crit" ∷ [];
  min_length = pos 5;
  threshold = pos 10;
}

abbrev event : LinkEvent
event = record { id = 1; link = []; description = codes "typo, then crit"; author = codes "me" }

check_event_lem_example :
    let d = check_event ascii (new_filtering_policy ascii config) event in
    let bad =
      any_of (lowered ascii config.stop_words) (split_to_tokens ascii event.description)
      || in_set config.excluded_authors event.author
      || below (description_len event) config.min_length in
    ((d.action ≡ ignore) ↔ (bad ≡ true))
    × ((d.priority ≡ no_priority) ↔ (bad ≡ true))
    × ((d.action ≡ summarize) ↔ ((bad || below (description_len event) config.threshold) ≡ false))
check_event_lem_example = check_event_lem ascii config event

abbrev expected : List ProcessedUpdate
expected =
    record {
      id = 11;
      link = [];
      description = format_group_description window;
      chat_ids = 1 ∷ [];
      priority = max_priority window;
    }
    ∷ record (update 10 [] low) { chat_ids = 2 ∷ [] }
    ∷ record (update 11 [] high) { chat_ids = 3 ∷ [] }
    ∷ []

window_run : deliveries (λ ks. ks) (λ ks. ks) window ≡ some expected
unfolding deliveries
window_run = refl

one_update_each :
    (k : ℕ) (u v : ProcessedUpdate)
    → updates_for k window ≡ u ∷ []
    → updates_for 2 window ≡ v ∷ []
    → v.id ≡ u.id
    → v ≡ u
unfolding updates_for
one_update_each k u v e f i = ground arith

deliveries-Right_example : All (Right 2 (updates_for 2 window)) expected
deliveries-Right_example =
    deliveries-Right (λ ks. ks) (λ ks. ks) window expected 2 one_update_each window_run
