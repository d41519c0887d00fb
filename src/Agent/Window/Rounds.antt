-- ===== src/Agent/Window/Rounds.antt =====
-- What the loop of HandleUpdatesWindow delivers to one chat, round by round.
use linktracker_eng.Prelude.{
  ℕ, ◌+◌, ◌≡◌, refl, ap, ◌∙◌, Bool, false, List, [], ◌∷◌, Option, none, some, ◌==◌, ==_cases, inl,
  inr, if◌then◌else◌, count_of, is_nil, arith, any_of, Option-cases,
}
use linktracker_eng.Agent.Updates.{ProcessedUpdate, group_updates}
use linktracker_eng.Agent.Window.{
  Groups, group_of, Batch, chats_of, drop_batch, delivered, cons_delivery,
}
use linktracker_eng.Agent.Window.Batches.{occurs, in_batch, lone, lone_as, in_batch-drop_batch}

-- How often the deliveries name the chat.
unfoldable pub mentions : ℕ → List ProcessedUpdate → ℕ
mentions c [] = 0
mentions c (d ∷ ds) = occurs c d.chat_ids + mentions c ds

-- The groups that the loop runs through are not empty.
abbrev pub Filled : Groups → List ℕ → Type 0
Filled g chats = (k : ℕ) → (occurs k chats == 0) ≡ false → is_nil (group_of k g) ≡ false

-- The loop makes deliveries, and they name the chat `n` times.
abbrev pub Delivers : ℕ → Option (List ProcessedUpdate) → ℕ → Type 0
Delivers c out n = (ds : List ProcessedUpdate) × (out ≡ some ds) × (mentions c ds ≡ n)

Filled-tail : (g : Groups) (k : ℕ) (chats : List ℕ) → Filled g (k ∷ chats) → Filled g chats
unfolding count_of
Filled-tail g k chats h c more = h c (ground arith)

Filled-head :
    (g : Groups) (k : ℕ) (chats : List ℕ) → Filled g (k ∷ chats) → is_nil (group_of k g) ≡ false
unfolding count_of
Filled-head g k chats h = h k (ground arith)

pub Delivers-skip :
    (c n m : ℕ) (out : Option (List ProcessedUpdate)) → n ≡ m → Delivers c out n → Delivers c out m
Delivers-skip c n m out e (ds, h, k) = (ds, h, k ∙ e)

Delivers-cons :
    (c n m : ℕ) (out : Option (List ProcessedUpdate)) (d : ProcessedUpdate)
    → occurs c d.chat_ids + n ≡ m
    → Delivers c out n
    → Delivers c (cons_delivery (some d) out) m
unfolding mentions
Delivers-cons c n m out d e (ds, h, k) = (d ∷ ds, rw h refl, rw k e)

-- One round of the loop, by the group of its chat.
module _ (g : Groups) (k : ℕ) (chats : List ℕ) (b : Batch) where
  pub round_sent :
      (u : ProcessedUpdate)
      → group_of k g ≡ u ∷ []
      → chats_of u.id b ≡ none
      → delivered g (k ∷ chats) b ≡ delivered g chats b
  unfolding delivered
  round_sent u e n = ground arith

  pub round_batch :
      (u : ProcessedUpdate) (ids : List ℕ)
      → group_of k g ≡ u ∷ []
      → chats_of u.id b ≡ some ids
      → delivered g (k ∷ chats) b
        ≡ cons_delivery (some (record u { chat_ids = ids })) (delivered g chats (drop_batch u.id b))
  unfolding delivered
  round_batch u ids e n = ground arith

  pub round_group :
      (u v : ProcessedUpdate) (us : List ProcessedUpdate)
      → group_of k g ≡ u ∷ v ∷ us
      → delivered g (k ∷ chats) b
        ≡ cons_delivery (group_updates (u ∷ v ∷ us) k) (delivered g chats b)
  unfolding delivered
  round_group u v us e = ground arith

module _ (c : ℕ) (g : Groups) where
  -- A chat whose updates are delivered as a group, or that has none.
  module _ (together : lone (group_of c g) ≡ false) where
    abbrev pub NoBatch : Batch → Type 0
    NoBatch b = (i : ℕ) → in_batch c i b ≡ 0

    together_step :
        (k : ℕ) (chats : List ℕ) (b : Batch) (us : List ProcessedUpdate)
        → group_of k g ≡ us
        → is_nil (group_of k g) ≡ false
        → NoBatch b
        → ((b' : Batch) → NoBatch b' → Delivers c (delivered g chats b') (occurs c chats))
        → Delivers c (delivered g (k ∷ chats) b) (occurs c (k ∷ chats))
    unfolding count_of group_updates
    together_step k chats b [] e filled no_batch rest = absurd (ground arith)
    together_step k chats b (u ∷ []) e filled no_batch rest = elim (==_cases k c) [
      | inl (same, f) ↦ absurd (ground arith)
      | inr (ne, f) ↦ elim (Option-cases (chats_of u.id b)) [
        | inl n ↦
            rw (round_sent g k chats b u e n) (Delivers-skip c _ _ _ (rw f refl) (rest b no_batch))
        | inr (ids, n) ↦ rw (round_batch g k chats b u ids e n) (
            Delivers-cons c _ _ _ (record u { chat_ids = ids }) (ground (arith, no_batch u.id))
              (rest (drop_batch u.id b)
                (λ i. ground (arith, in_batch-drop_batch c i u.id b, no_batch i))))
      ]
    ]
    together_step k chats b (u ∷ v ∷ us) e filled no_batch rest =
        rw (round_group g k chats b u v us e)
          (Delivers-cons c _ _ _ _ (ground arith) (rest b no_batch))

    pub Delivers-together :
        (chats : List ℕ) (b : Batch)
        → NoBatch b
        → Filled g chats
        → Delivers c (delivered g chats b) (occurs c chats)
    Delivers-together [] b no_batch filled =
        ([], unfold delivered in refl, unfold mentions count_of in refl)
    Delivers-together (k ∷ chats) b no_batch filled =
        together_step k chats b (group_of k g) refl (Filled-head g k chats filled) no_batch
          (λ b' none'. Delivers-together chats b' none' (Filled-tail g k chats filled))

  -- A chat that has one update, which a batch delivers.
  module _ (mine : ProcessedUpdate) (alone : group_of c g ≡ mine ∷ []) where
    -- Whether some chat of the list has an update with the same id alone.
    abbrev pub batch_comes : List ℕ → Bool
    batch_comes = any_of (λ k. lone_as mine.id (group_of k g))

    abbrev pub OneBatch : Batch → Type 0
    OneBatch b = (i : ℕ) → (mine.id == i) ≡ false → in_batch c i b ≡ 0

    abbrev pub share : List ℕ → Batch → ℕ
    share chats b = if batch_comes chats then in_batch c mine.id b else 0

    alone_step :
        (k : ℕ) (chats : List ℕ) (b : Batch) (us : List ProcessedUpdate)
        → group_of k g ≡ us
        → is_nil (group_of k g) ≡ false
        → OneBatch b
        → ((b' : Batch) → OneBatch b' → Delivers c (delivered g chats b') (share chats b'))
        → Delivers c (delivered g (k ∷ chats) b) (share (k ∷ chats) b)
    unfolding count_of group_updates any_of
    alone_step k chats b [] e filled one rest = absurd (ground arith)
    alone_step k chats b (u ∷ []) e filled one rest = elim (Option-cases (chats_of u.id b)) [
      | inl n ↦ rw (round_sent g k chats b u e n) (
          Delivers-skip c _ _ _
            (elim (==_cases u.id mine.id) [
              | inl (same, f) ↦ ground (arith, ap (λ j. chats_of j b) same)
              | inr (other, f) ↦ ground arith
            ])
            (rest b one))
      | inr (ids, n) ↦ rw (round_batch g k chats b u ids e n) (
          Delivers-cons c _ _ _ (record u { chat_ids = ids })
            (elim (==_cases u.id mine.id) [
              | inl (same, f) ↦
                  ground (arith, ap (λ j. chats_of j b) same, in_batch-drop_batch c mine.id u.id b)
              | inr (other, f) ↦ ground (arith, one u.id, in_batch-drop_batch c mine.id u.id b)
            ])
            (rest (drop_batch u.id b)
              (λ i ne. ground (arith, in_batch-drop_batch c i u.id b, one i ne))))
    ]
    alone_step k chats b (u ∷ v ∷ us) e filled one rest = rw (round_group g k chats b u v us e) (
        Delivers-cons c _ _ _ _
          (elim (==_cases k c) [
            | inl (same, f) ↦ ground (arith, ap (λ j. group_of j g) same)
            | inr (other, f) ↦ ground arith
          ])
          (rest b one))

    pub Delivers-alone :
        (chats : List ℕ) (b : Batch)
        → OneBatch b
        → Filled g chats
        → Delivers c (delivered g chats b) (share chats b)
    Delivers-alone [] b one filled = ([], unfold delivered in refl, unfold mentions any_of in refl)
    Delivers-alone (k ∷ chats) b one filled =
        alone_step k chats b (group_of k g) refl (Filled-head g k chats filled) one
          (λ b' one'. Delivers-alone chats b' one' (Filled-tail g k chats filled))
