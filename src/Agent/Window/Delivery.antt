-- ===== src/Agent/Window/Delivery.antt =====
-- Each chat gets its updates in exactly one delivery.
use linktracker_eng.Prelude.{
  ℕ, ◌≡◌, refl, ◌∙◌, Bool, true, false, List, [], ◌∷◌, Option, some, ◌==◌, ==_cases, ==_refl, inl,
  inr, if◌then◌else◌, count_of, is_nil, arith, any_of,
}
use linktracker_eng.Agent.Updates.{ProcessedUpdate}
use linktracker_eng.Agent.Window.{
  Groups, group_of, grouped, keys, Batch, chats_of, batched, delivered, deliveries,
}
use linktracker_eng.Agent.Window.Batches.{
  occurs, updates_for, Keyed, grouped-Keyed, group_of-grouped, in_batch, lone, lone_as,
  in_batch-batched,
}
use linktracker_eng.Agent.Window.Rounds.{
  mentions, Filled, Delivers, Delivers-skip, share, Delivers-together, Delivers-alone,
}

-- An order in which `range` runs through the keys of a map: each key as often as it is there.
abbrev pub IsOrder : (List ℕ → List ℕ) → Type 0
IsOrder order = (c : ℕ) (ks : List ℕ) → occurs c (order ks) ≡ occurs c ks

lone_as-together : (i : ℕ) (us : List ProcessedUpdate) → lone us ≡ false → lone_as i us ≡ false
lone_as-together i [] h = refl
lone_as-together i (u ∷ []) h = cc
lone_as-together i (u ∷ v ∷ us) h = refl

occurs-any_of :
    (p : ℕ → Bool) (c : ℕ) (ks : List ℕ)
    → p c ≡ true
    → (occurs c ks == 0) ≡ false
    → any_of p ks ≡ true
unfolding any_of count_of
occurs-any_of p c [] h n = cc
occurs-any_of p c (k ∷ ks) h n = elim (==_cases k c) [
  | inl (same, f) ↦ rw (same, h) refl
  | inr (other, f) ↦ ground (arith, occurs-any_of p c ks h)
]

module _ (order₁ order₂ : List ℕ → List ℕ) (g : Groups) (h₁ : IsOrder order₁) (h₂ : IsOrder order₂)
    (keyed : Keyed g) where
  Filled-keys : Filled g (order₂ (keys g))
  Filled-keys k n = ground (arith, h₂ k (keys g), keyed k)

  abbrev batch : Batch
  batch = batched g (order₁ (keys g)) []

  no_batch : (c : ℕ) → lone (group_of c g) ≡ false → (i : ℕ) → in_batch c i batch ≡ 0
  unfolding chats_of
  no_batch c h i =
      ground
        (arith, in_batch-batched c i g (order₁ (keys g)) [], lone_as-together i (group_of c g) h)

  batch_of_lone :
      (c : ℕ) (u : ProcessedUpdate)
      → group_of c g ≡ u ∷ []
      → (i : ℕ) → in_batch c i batch ≡ (if u.id == i then 1 else 0)
  unfolding chats_of
  batch_of_lone c u e i =
      ground (arith, in_batch-batched c i g (order₁ (keys g)) [], h₁ c (keys g), keyed c)

  share_lone :
      (c : ℕ) (u : ProcessedUpdate) (e : group_of c g ≡ u ∷ [])
      → share c g u e (order₂ (keys g)) batch ≡ 1
  share_lone c u e =
      let comes =
        occurs-any_of (λ k. lone_as u.id (group_of k g)) c (order₂ (keys g)) (rw e (==_refl u.id))
          (ground (arith, h₂ c (keys g), keyed c)) in
      rw comes (batch_of_lone c u e u.id ∙ rw (==_refl u.id) refl)

  once_by_group :
      (c : ℕ) (us : List ProcessedUpdate)
      → group_of c g ≡ us
      → Delivers c (delivered g (order₂ (keys g)) batch) (if is_nil us then 0 else 1)
  once_by_group c [] e = Delivers-skip c _ _ _ (ground (arith, h₂ c (keys g), keyed c)) (
      Delivers-together c g (rw e refl) (order₂ (keys g)) batch (no_batch c (rw e refl))
        Filled-keys)
  once_by_group c (u ∷ []) e = Delivers-skip c _ _ _ (share_lone c u e) (
      Delivers-alone c g u e (order₂ (keys g)) batch (λ i ne. batch_of_lone c u e i ∙ rw ne refl)
        Filled-keys)
  once_by_group c (u ∷ v ∷ us) e = Delivers-skip c _ _ _ (ground (arith, h₂ c (keys g), keyed c)) (
      Delivers-together c g (rw e refl) (order₂ (keys g)) batch (no_batch c (rw e refl))
        Filled-keys)

same_deliveries :
    (c n : ℕ) (out : Option (List ProcessedUpdate)) (ds : List ProcessedUpdate)
    → out ≡ some ds
    → Delivers c out n
    → mentions c ds ≡ n
same_deliveries c n out ds h (ds', h', k) = let same : ds ≡ ds' = cc in rw same k

-- Whatever the orders, HandleUpdatesWindow does not panic, and the deliveries that it makes name
-- each chat of a processed update exactly once, and no other chat.
pub deliveries_once :
    (order₁ order₂ : List ℕ → List ℕ) (processed : List ProcessedUpdate)
    → IsOrder order₁
    → IsOrder order₂
    → (ds : List ProcessedUpdate) × (deliveries order₁ order₂ processed ≡ some ds)
      × ((c : ℕ) → mentions c ds ≡ (if is_nil (updates_for c processed) then 0 else 1))
deliveries_once order₁ order₂ processed h₁ h₂ =
    let g = grouped processed [] in
    let once = λ (c : ℕ).
      once_by_group order₁ order₂ g h₁ h₂ (grouped-Keyed processed) c (group_of c g) refl in
    let (ds, h, _) = once 0 in
    (
      ds,
      unfold deliveries in h,
      λ c.
          rw (group_of-grouped c processed) at
            (same_deliveries c (if is_nil (group_of c g) then 0 else 1) _ ds h (once c)),
    )
