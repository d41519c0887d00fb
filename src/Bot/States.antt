-- ===== src/Bot/States.antt =====
-- internal/bot/application/states.go and internal/bot/infrastructure/repository/state_repo.go. The
-- map from chats to states is an association list with one entry a key; each method holds the
-- lock, so each is one step.
use linktracker_eng.Prelude.{
  ℕ, ◌≡◌, ◌≢◌, refl, List, [], ◌∷◌, Option, none, some, Text, arith, ◌==◌, if◌then◌else◌,
}

pub data ClientState : Type 0 where
  available await_link await_tags : ClientState

pub record ChatState : Type 0 where
  pub chat_id : ℕ
  pub state : ClientState
  pub url : Text
  pub tags : List Text

abbrev pub ChatStates : Type 0
ChatStates = List (ℕ × ChatState)

-- The zero value, which `r.state[chatID]` yields for a missing key.
abbrev pub zero_state : ChatState
zero_state = record { chat_id = 0; state = available; url = []; tags = [] }

unfoldable pub lookup : ℕ → ChatStates → Option ChatState
lookup id [] = none
lookup id ((k, s) ∷ rest) = let found = lookup id rest in if k == id then some s else found

-- r.state[chatID] = s
unfoldable pub put : ℕ → ChatState → ChatStates → ChatStates
put id s [] = (id, s) ∷ []
put id s ((k, t) ∷ rest) =
    let others = put id s rest in if k == id then (k, s) ∷ rest else (k, t) ∷ others

abbrev pub stored_or : ChatState → Option ChatState → ChatState
stored_or d none = d
stored_or d (some s) = s

unfoldable pub get : ℕ → ChatStates → ChatState
get id r = stored_or (record zero_state { chat_id = id }) (lookup id r)

unfoldable pub start_tracking : ℕ → ChatStates → ChatStates
start_tracking id r = put id (record zero_state { chat_id = id; state = await_link }) r

unfoldable pub set_url : ℕ → Text → ChatStates → ChatStates
set_url id url r =
    let s = stored_or zero_state (lookup id r) in
    put id (record s { chat_id = id; url = url; state = await_tags }) r

unfoldable pub set_tags : ℕ → List Text → ChatStates → ChatStates
set_tags id tags r =
    let s = stored_or zero_state (lookup id r) in put id (record s { chat_id = id; tags = tags }) r

-- delete(r.state, chatID)
unfoldable pub remove : ℕ → ChatStates → ChatStates
remove id [] = []
remove id ((k, s) ∷ rest) =
    let others = remove id rest in if k == id then others else (k, s) ∷ others

pub lookup-put : (id : ℕ) (s : ChatState) (r : ChatStates) → lookup id (put id s r) ≡ some s
unfolding lookup put
lookup-put id s [] = ground arith
lookup-put id s ((k, t) ∷ rest) = ground (arith, lookup-put id s rest)

pub lookup-put_other :
    (id other : ℕ) (s : ChatState) (r : ChatStates)
    → other ≢ id
    → lookup other (put id s r) ≡ lookup other r
unfolding lookup put
lookup-put_other id other s [] ne = ground arith
lookup-put_other id other s ((k, t) ∷ rest) ne = ground (arith, lookup-put_other id other s rest ne)

pub lookup-remove : (id : ℕ) (r : ChatStates) → lookup id (remove id r) ≡ none
unfolding lookup remove
lookup-remove id [] = refl
lookup-remove id ((k, t) ∷ rest) = ground (arith, lookup-remove id rest)

pub lookup-remove_other :
    (id other : ℕ) (r : ChatStates) → other ≢ id → lookup other (remove id r) ≡ lookup other r
unfolding lookup remove
lookup-remove_other id other [] ne = refl
lookup-remove_other id other ((k, t) ∷ rest) ne =
    ground (arith, lookup-remove_other id other rest ne)

pub lookup-start_tracking :
    (id : ℕ) (r : ChatStates)
    → lookup id (start_tracking id r)
      ≡ some (record zero_state { chat_id = id; state = await_link })
unfolding start_tracking
lookup-start_tracking id r = lookup-put id _ r

pub lookup-set_url :
    (id : ℕ) (url : Text) (r : ChatStates)
    → lookup id (set_url id url r)
      ≡ some (record (stored_or zero_state (lookup id r)) {
        chat_id = id;
        url = url;
        state = await_tags;
      })
unfolding set_url
lookup-set_url id url r = lookup-put id _ r

-- Once the tags are set, the session that is read back has them, and the URL it had.
pub get-set_tags :
    (id : ℕ) (tags : List Text) (r : ChatStates)
    → ((get id (set_tags id tags r)).url ≡ (get id r).url)
      × ((get id (set_tags id tags r)).tags ≡ tags)
unfolding set_tags get
get-set_tags id tags r = ground (
  arith,
  lookup-put id (record (stored_or zero_state (lookup id r)) { chat_id = id; tags = tags }) r,
)

-- The methods leave the other chats alone.
module _ (id other : ℕ) (r : ChatStates) (ne : other ≢ id) where
  pub lookup-start_tracking_other : lookup other (start_tracking id r) ≡ lookup other r
  unfolding start_tracking
  lookup-start_tracking_other = lookup-put_other id other _ r ne

  pub lookup-set_url_other : (url : Text) → lookup other (set_url id url r) ≡ lookup other r
  unfolding set_url
  lookup-set_url_other url = lookup-put_other id other _ r ne

  pub lookup-set_tags_other :
      (tags : List Text) → lookup other (set_tags id tags r) ≡ lookup other r
  unfolding set_tags
  lookup-set_tags_other tags = lookup-put_other id other _ r ne
