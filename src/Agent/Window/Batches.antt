-- ===== src/Agent/Window/Batches.antt =====
-- What the maps of HandleUpdatesWindow hold: the groups of each chat, and the chats of each batch.
use linktracker_eng.Prelude.{
  ℕ, ◌+◌, ◌≡◌, refl, Bool, true, false, ◌&&◌, List, [], ◌∷◌, ◌++◌, Option, none, some, ◌==◌,
  ==_cases, inl, inr, if◌then◌else◌, count_of, is_nil, arith,
}
use mathlib.Core.List.{append-nil, append_assoc}
use linktracker_eng.Agent.Updates.{ProcessedUpdate}
use linktracker_eng.Agent.Window.{
  Groups, group_of, add_to_group, add_chats, grouped, keys, Batch, chats_of, add_chat, add_single,
  drop_batch, batched,
}

abbrev pub occurs : ℕ → List ℕ → ℕ
occurs c ids = count_of (λ k. k == c) ids

-- The update once for each time that the chat is named.
abbrev copies : ℕ → ProcessedUpdate → List ℕ → List ProcessedUpdate
copies c u [] = []
copies c u (id ∷ ids) = if id == c then u ∷ copies c u ids else copies c u ids

-- The updates of a chat, in their order.
unfoldable pub updates_for : ℕ → List ProcessedUpdate → List ProcessedUpdate
updates_for c [] = []
updates_for c (u ∷ us) = copies c u u.chat_ids ++ updates_for c us

group_of-add_to_group :
    (c id : ℕ) (u : ProcessedUpdate) (g : Groups)
    → group_of c (add_to_group id u g) ≡ (if id == c then group_of c g ++ u ∷ [] else group_of c g)
unfolding group_of add_to_group
group_of-add_to_group c id u [] = ground arith
group_of-add_to_group c id u ((k, us) ∷ g) = ground (arith, group_of-add_to_group c id u g)

group_of-add_chats :
    (c : ℕ) (u : ProcessedUpdate) (ids : List ℕ) (g : Groups)
    → group_of c (add_chats u ids g) ≡ group_of c g ++ copies c u ids
unfolding add_chats
group_of-add_chats c u [] g = rw append-nil refl
group_of-add_chats c u (id ∷ ids) g =
    rw (group_of-add_chats c u ids (add_to_group id u g), group_of-add_to_group c id u g)
      (ground (arith, append_assoc (group_of c g) (u ∷ []) (copies c u ids)))

keys-add_to_group :
    (c id : ℕ) (u : ProcessedUpdate) (g : Groups)
    → occurs c (keys (add_to_group id u g))
      ≡ (if (id == c) && (occurs c (keys g) == 0) then 1 else occurs c (keys g))
unfolding add_to_group count_of
keys-add_to_group c id u [] = ground arith
keys-add_to_group c id u ((k, us) ∷ g) = ground (arith, keys-add_to_group c id u g)

is_nil-snoc : (us : List ProcessedUpdate) (u : ProcessedUpdate) → is_nil (us ++ u ∷ []) ≡ false
is_nil-snoc [] u = refl
is_nil-snoc (v ∷ us) u = refl

-- A chat is a key once, if it has updates at all.
abbrev pub Keyed : Groups → Type 0
Keyed g = (c : ℕ) → occurs c (keys g) ≡ (if is_nil (group_of c g) then 0 else 1)

Keyed-add_to_group :
    (id : ℕ) (u : ProcessedUpdate) (g : Groups) → Keyed g → Keyed (add_to_group id u g)
Keyed-add_to_group id u g h c =
    rw (keys-add_to_group c id u g, group_of-add_to_group c id u g, h c)
      (ground (arith, is_nil-snoc (group_of c g) u))

Keyed-add_chats :
    (u : ProcessedUpdate) (ids : List ℕ) (g : Groups) → Keyed g → Keyed (add_chats u ids g)
unfolding add_chats
Keyed-add_chats u [] g h = h
Keyed-add_chats u (id ∷ ids) g h = Keyed-add_chats u ids _ (Keyed-add_to_group id u g h)

Keyed-grouped : (us : List ProcessedUpdate) (g : Groups) → Keyed g → Keyed (grouped us g)
unfolding grouped
Keyed-grouped [] g h = h
Keyed-grouped (u ∷ us) g h = Keyed-grouped us _ (Keyed-add_chats u u.chat_ids g h)

-- Each chat that an update names is one key of the groups.
pub grouped-Keyed : (us : List ProcessedUpdate) → Keyed (grouped us [])
grouped-Keyed us = Keyed-grouped us [] (λ c. unfold group_of count_of in refl)

group_of-grouped_from :
    (c : ℕ) (us : List ProcessedUpdate) (g : Groups)
    → group_of c (grouped us g) ≡ group_of c g ++ updates_for c us
unfolding grouped updates_for
group_of-grouped_from c [] g = rw append-nil refl
group_of-grouped_from c (u ∷ us) g =
    rw (group_of-grouped_from c us (add_chats u u.chat_ids g), group_of-add_chats c u u.chat_ids g)
      (search append_assoc)

-- The group of a chat is the list of its updates.
pub group_of-grouped :
    (c : ℕ) (us : List ProcessedUpdate) → group_of c (grouped us []) ≡ updates_for c us
unfolding group_of
group_of-grouped c us = group_of-grouped_from c us []

-- How often the batch of the update `i` names the chat.
abbrev pub in_option : ℕ → Option (List ℕ) → ℕ
in_option c none = 0
in_option c (some ids) = occurs c ids

abbrev pub in_batch : ℕ → ℕ → Batch → ℕ
in_batch c i b = in_option c (chats_of i b)

abbrev pub lone : List ProcessedUpdate → Bool
lone (u ∷ []) = true
lone _ = false

abbrev pub lone_as : ℕ → List ProcessedUpdate → Bool
lone_as i (u ∷ []) = u.id == i
lone_as i _ = false

occurs-snoc :
    (c k : ℕ) (ids : List ℕ) → occurs c (ids ++ k ∷ []) ≡ occurs c ids + (if k == c then 1 else 0)
unfolding count_of
occurs-snoc c k [] = ground arith
occurs-snoc c k (id ∷ ids) = ground (arith, occurs-snoc c k ids)

in_batch-add_chat :
    (c i j k : ℕ) (b : Batch)
    → in_batch c i (add_chat j k b) ≡ in_batch c i b + (if (j == i) && (k == c) then 1 else 0)
unfolding add_chat chats_of count_of
in_batch-add_chat c i j k [] = ground arith
in_batch-add_chat c i j k ((l, ids) ∷ b) =
    ground (arith, in_batch-add_chat c i j k b, occurs-snoc c k ids)

in_batch-add_single :
    (c i k : ℕ) (us : List ProcessedUpdate) (b : Batch)
    → in_batch c i (add_single k us b)
      ≡ in_batch c i b + (if lone_as i us && (k == c) then 1 else 0)
in_batch-add_single c i k [] b = ground arith
in_batch-add_single c i k (u ∷ []) b = in_batch-add_chat c i u.id k b
in_batch-add_single c i k (u ∷ v ∷ us) b = ground arith

pub in_batch-batched :
    (c i : ℕ) (g : Groups) (chats : List ℕ) (b : Batch)
    → in_batch c i (batched g chats b)
      ≡ in_batch c i b + (if lone_as i (group_of c g) then occurs c chats else 0)
unfolding batched count_of
in_batch-batched c i g [] b = ground arith
in_batch-batched c i g (k ∷ chats) b =
    let step = in_batch-add_single c i k (group_of k g) b in
    elim (==_cases k c) [
      | inl (e, f) ↦
          rw (in_batch-batched c i g chats (add_single k (group_of k g) b), step, f, e)
            (ground arith)
      | inr (ne, f) ↦
          rw (in_batch-batched c i g chats (add_single k (group_of k g) b), step, f) (ground arith)
    ]

pub in_batch-drop_batch :
    (c i j : ℕ) (b : Batch) → in_batch c i (drop_batch j b) ≡ (if i == j then 0 else in_batch c i b)
unfolding drop_batch chats_of
in_batch-drop_batch c i j [] = ground arith
in_batch-drop_batch c i j ((l, ids) ∷ b) = ground (arith, in_batch-drop_batch c i j b)
