-- ===== src/Agent/Window/Content.antt =====
-- What a delivery tells a chat: its one update as it is, or the group of all its updates.
use linktracker_eng.Prelude.{
  ℕ, ◌≡◌, refl, sym, ap, ◌∙◌, ◌⊎◌, inl, inr, true, false, List, [], ◌∷◌, Option, none, some,
  ==_cases, count_of, arith, All, Option-cases, Bool-cases,
}
use linktracker_eng.Agent.Updates.{ProcessedUpdate, group_updates}
use linktracker_eng.Agent.Window.{
  Groups, group_of, grouped, keys, Batch, chats_of, drop_batch, batched, delivered, deliveries,
  cons_delivery,
}
use linktracker_eng.Agent.Window.Batches.{
  occurs, updates_for, group_of-grouped, in_batch, lone_as, in_batch-batched, in_batch-drop_batch,
}
use linktracker_eng.Agent.Window.Rounds.{round_sent, round_batch, round_group}

-- The delivery that a chat with these updates is to get.
abbrev pub Tells : ℕ → List ProcessedUpdate → ProcessedUpdate → Type 0
Tells c [] d = ⊥
Tells c (u ∷ []) d = d ≡ record u { chat_ids = d.chat_ids }
Tells c (u ∷ v ∷ us) d = group_updates (u ∷ v ∷ us) c ≡ some d

-- A delivery that names the chat is the one that it is to get.
abbrev pub Right : ℕ → List ProcessedUpdate → ProcessedUpdate → Type 0
Right c us d = (occurs c d.chat_ids ≡ 0) ⊎ Tells c us d

nothing_delivered :
    (g : Groups) (b : Batch) (ds : List ProcessedUpdate) → delivered g [] b ≡ some ds → ds ≡ []
unfolding delivered
nothing_delivered g b ds h = cc

cons_delivery-some :
    (d : ProcessedUpdate) (out : Option (List ProcessedUpdate)) (ds : List ProcessedUpdate)
    → cons_delivery (some d) out ≡ some ds
    → (rest : List ProcessedUpdate) × (out ≡ some rest) × (ds ≡ d ∷ rest)
cons_delivery-some d none ds h = absurd (cc)
cons_delivery-some d (some rest) ds h = (rest, refl, cc)

module _ (c : ℕ) (g : Groups) (mine : List ProcessedUpdate) (m : group_of c g ≡ mine) where
  -- A batch that names the chat is that of its one update, and chats that have an update with that
  -- id alone have the same update.
  abbrev Own : Batch → Type 0
  Own b = (i : ℕ) → lone_as i mine ≡ false → in_batch c i b ≡ 0

  abbrev Agree : Type 0
  Agree =
      (k : ℕ) (u : ProcessedUpdate)
      → group_of k g ≡ u ∷ []
      → lone_as u.id mine ≡ true
      → mine ≡ u ∷ []

  Right-single :
      (k : ℕ) (u : ProcessedUpdate) (ids : List ℕ) (b : Batch)
      → Agree
      → Own b
      → group_of k g ≡ u ∷ []
      → chats_of u.id b ≡ some ids
      → Right c mine (record u { chat_ids = ids })
  Right-single k u ids b agree own e n = elim (Bool-cases (lone_as u.id mine)) [
    | inl l ↦ inr (rw (agree k u e l) refl)
    | inr l ↦ inl (ground (arith, own u.id l))
  ]

  abbrev chats_named : Option ProcessedUpdate → ℕ
  chats_named none = 0
  chats_named (some d) = occurs c d.chat_ids

  Right-group :
      (k : ℕ) (u v : ProcessedUpdate) (us : List ProcessedUpdate) (d : ProcessedUpdate)
      → group_of k g ≡ u ∷ v ∷ us
      → group_updates (u ∷ v ∷ us) k ≡ some d
      → Right c mine d
  unfolding group_updates count_of
  Right-group k u v us d e h = elim (==_cases k c) [
    | inl (same, f) ↦
        (let is_mine : mine ≡ u ∷ v ∷ us = sym m ∙ ap (λ j. group_of j g) (sym same) ∙ e in
          inr (rw is_mine (rw same at h)))
    | inr (ne, f) ↦ inl (ap (λ (o : Option ProcessedUpdate). chats_named o) (sym h) ∙ rw f refl)
  ]

  round_empty :
      (k : ℕ) (chats : List ℕ) (b : Batch) → group_of k g ≡ [] → delivered g (k ∷ chats) b ≡ none
  unfolding delivered group_updates
  round_empty k chats b e = ground arith

  rights_cons :
      (d : ProcessedUpdate) (rest ds : List ProcessedUpdate)
      → ds ≡ d ∷ rest
      → Right c mine d
      → All (Right c mine) rest
      → All (Right c mine) ds
  rights_cons d rest ds e r rs = rw e (r, rs)

  rights_step :
      (k : ℕ) (chats : List ℕ) (b : Batch) (ds us : List ProcessedUpdate)
      → group_of k g ≡ us
      → Agree
      → Own b
      → delivered g (k ∷ chats) b ≡ some ds
      → ((b' : Batch) (ds' : List ProcessedUpdate)
          → Own b'
          → delivered g chats b' ≡ some ds'
          → All (Right c mine) ds')
      → All (Right c mine) ds
  rights_step k chats b ds [] e agree own h rest = absurd (ground (arith, round_empty k chats b e))
  rights_step k chats b ds (u ∷ []) e agree own h rest = elim (Option-cases (chats_of u.id b)) [
    | inl n ↦ rest b ds own (sym (round_sent g k chats b u e n) ∙ h)
    | inr (ids, n) ↦
        (let (ds', h', e') =
            cons_delivery-some _ _ ds (sym (round_batch g k chats b u ids e n) ∙ h) in
          rights_cons _ ds' ds e' (Right-single k u ids b agree own e n) (
            rest (drop_batch u.id b) ds'
              (λ i l. ground (arith, in_batch-drop_batch c i u.id b, own i l)) h'))
  ]
  rights_step k chats b ds (u ∷ v ∷ us) e agree own h rest =
      elim (Option-cases (group_updates (u ∷ v ∷ us) k)) [
        | inl n ↦ absurd (ground (arith, round_group g k chats b u v us e))
        | inr (d, n) ↦
            (let (ds', h', e') =
                cons_delivery-some d _ ds (rw n at (sym (round_group g k chats b u v us e) ∙ h)) in
              rights_cons d ds' ds e' (Right-group k u v us d e n) (rest b ds' own h'))
      ]

  pub rights :
      (chats : List ℕ) (b : Batch) (ds : List ProcessedUpdate)
      → Agree
      → Own b
      → delivered g chats b ≡ some ds
      → All (Right c mine) ds
  rights [] b ds agree own h =
      let none_left : ds ≡ [] = nothing_delivered g b ds h in rw none_left tt
  rights (k ∷ chats) b ds agree own h =
      rights_step k chats b ds (group_of k g) refl agree own h
        (λ b' ds' own' h'. rights chats b' ds' agree own' h')

lone_as-update :
    (i : ℕ) (us : List ProcessedUpdate)
    → lone_as i us ≡ true
    → (v : ProcessedUpdate) × (us ≡ v ∷ []) × (v.id ≡ i)
lone_as-update i [] h = absurd (ground arith)
lone_as-update i (v ∷ []) h = (v, refl, ground arith)
lone_as-update i (v ∷ w ∷ us) h = absurd (ground arith)

own_batches :
    (c : ℕ) (g : Groups) (ks : List ℕ) (i : ℕ)
    → lone_as i (group_of c g) ≡ false
    → in_batch c i (batched g ks []) ≡ 0
unfolding chats_of
own_batches c g ks i l = ground (arith, in_batch-batched c i g ks [])

-- If updates of one id which chats have alone are the same update, as they are where ids are
-- distinct, then each delivery that names a chat tells it what it is to hear: the one update of
-- the chat unchanged but for the list of chats, or the group of all its updates in their order.
pub deliveries-Right :
    (order₁ order₂ : List ℕ → List ℕ) (processed ds : List ProcessedUpdate) (c : ℕ)
    → ((k : ℕ) (u v : ProcessedUpdate)
        → updates_for k processed ≡ u ∷ []
        → updates_for c processed ≡ v ∷ []
        → v.id ≡ u.id
        → v ≡ u)
    → deliveries order₁ order₂ processed ≡ some ds
    → All (Right c (updates_for c processed)) ds
unfolding deliveries
deliveries-Right order₁ order₂ processed ds c same h =
    let g = grouped processed [] in
    let mine = group_of-grouped c processed in
    rights c g (updates_for c processed) mine (order₂ (keys g)) (batched g (order₁ (keys g)) []) ds
      (λ k u e l.
        (let (v, one, id) = lone_as-update u.id (updates_for c processed) l in
          one ∙ ap (λ x. x ∷ []) (same k u v (sym (group_of-grouped k processed) ∙ e) one id)))
      (λ i l. own_batches c g (order₁ (keys g)) i (rw mine l)) h
