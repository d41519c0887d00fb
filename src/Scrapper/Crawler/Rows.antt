-- ===== src/Scrapper/Crawler/Rows.antt =====
-- The rows of the subscribers of a link, as the crawler reads them and as it writes them back.
use linktracker_eng.Prelude.{
  ℕ, ◌≡◌, refl, ◌∙◌, Bool, true, false, not, List, [], ◌∷◌, ◌==◌, keep, any_of, All, Distinct,
  arith, Bool-cases, Option-cases, ==_cases, ==_iff, ==_refl, inl, inr,
}
use linktracker_eng.Scrapper.Tables.{
  SubRow, LinkSubscription, is_sub, new_link_subscription, set_last_update,
}
use linktracker_eng.Scrapper.Repo.Subs.{scan_subs}
use linktracker_eng.Scrapper.Invariant.{same_sub}
use linktracker_eng.Scrapper.Crawler.Noted.{sub_time, same_subscriber, sub_time-none}

module _ (res : ℕ) where
  abbrev pub scanned : List SubRow → List LinkSubscription
  scanned rows = scan_subs (keep (λ s. s.res_id == res) rows)

  no_subscriber :
      (user : ℕ) (rows : List SubRow)
      → any_of (is_sub user res) rows ≡ false
      → any_of (λ s. s.user_id == user) (scanned rows) ≡ false
  unfolding any_of keep scan_subs set_last_update new_link_subscription
  no_subscriber user [] h = refl
  no_subscriber user (r ∷ rows) h = elim (Bool-cases (r.res_id == res)) [
    | inr e ↦ rw e (no_subscriber user rows (ground arith))
    | inl e ↦ rw e (elim (Option-cases r.last_update) [
      | inl f ↦ rw f (no_subscriber user rows (ground arith))
      | inr (t, f) ↦ rw f (ground (arith, no_subscriber user rows))
    ])
  ]

  pub no_sub :
      (r : SubRow)
      → r.res_id ≡ res
      → (rows : List SubRow) → any_of (same_sub r) rows ≡ false
      → any_of (is_sub r.user_id res) rows ≡ false
  unfolding any_of
  no_sub r q [] h = refl
  no_sub r q (x ∷ rows) h =
      ground (arith, no_sub r q rows, ==_iff r.user_id x.user_id, ==_iff x.user_id r.user_id)

  -- No user is listed twice.
  pub Distinct-scanned :
      (rows : List SubRow) → Distinct same_sub rows → Distinct same_subscriber (scanned rows)
  unfolding keep scan_subs set_last_update new_link_subscription
  Distinct-scanned [] d = tt
  Distinct-scanned (r ∷ rows) d = elim (==_cases r.res_id res) [
    | inr (ne, e) ↦ rw e (Distinct-scanned rows d.1)
    | inl (q, e) ↦ rw e (elim (Option-cases r.last_update) [
      | inl f ↦ rw f (Distinct-scanned rows d.1)
      | inr (t, f) ↦
          rw f (no_subscriber r.user_id rows (no_sub r q rows d.0), Distinct-scanned rows d.1)
    ])
  ]

  sub_time-scanned_skip :
      (user : ℕ) (r : SubRow) (rows : List SubRow)
      → is_sub user res r ≡ false
      → sub_time user (scanned (r ∷ rows)) ≡ sub_time user (scanned rows)
  unfolding keep scan_subs set_last_update new_link_subscription
  sub_time-scanned_skip user r rows h = elim (Bool-cases (r.res_id == res)) [
    | inr e ↦ rw e refl
    | inl e ↦ rw e (elim (Option-cases r.last_update) [
      | inl f ↦ rw f refl
      | inr (t, f) ↦ rw f (elim (Bool-cases (r.user_id == user)) [
        | inl u ↦ absurd (ground arith)
        | inr u ↦ rw u refl
      ])
    ])
  ]

  sub_time-scanned_hit :
      (r : SubRow) (rows : List SubRow)
      → (r.res_id == res) ≡ true
      → any_of (is_sub r.user_id res) rows ≡ false
      → sub_time r.user_id (scanned (r ∷ rows)) ≡ r.last_update
  unfolding keep scan_subs set_last_update new_link_subscription
  sub_time-scanned_hit r rows e h = rw e (elim (Option-cases r.last_update) [
    | inl f ↦ rw f (sub_time-none r.user_id (scanned rows) (no_subscriber r.user_id rows h))
    | inr (t, f) ↦ rw f (ground (arith, ==_refl r.user_id))
  ])

  -- The time that is read for a row of the link, behind rows of other subscribers.
  abbrev pub IsRead : List SubRow → SubRow → Type 0
  IsRead rows r = (r.res_id == res) ≡ true → sub_time r.user_id (scanned rows) ≡ r.last_update

  IsRead-cons :
      (x : SubRow) (rows tail : List SubRow)
      → any_of (same_sub x) tail ≡ false
      → All (IsRead rows) tail
      → All (IsRead (x ∷ rows)) tail
  unfolding any_of
  IsRead-cons x rows [] h a = tt
  IsRead-cons x rows (r ∷ tail) h a = (
    (λ e.
        sub_time-scanned_skip r.user_id x rows
          (ground (arith, ==_iff x.user_id r.user_id, ==_iff x.res_id r.res_id))
        ∙ a.0 e),
    IsRead-cons x rows tail (ground arith) a.1,
  )

  pub All-IsRead : (rows : List SubRow) → Distinct same_sub rows → All (IsRead rows) rows
  All-IsRead [] d = tt
  All-IsRead (x ∷ rows) d = (
    (λ e. sub_time-scanned_hit x rows e (no_sub x ((==_iff x.res_id res).0 e) rows d.0)),
    IsRead-cons x rows rows d.0 (All-IsRead rows d.1),
  )

  -- Every subscriber that is read has a row.
  pub scanned_listed :
      (all rows : List SubRow)
      → any_of (λ r. not (any_of (is_sub r.user_id r.res_id) all)) rows ≡ false
      → any_of (λ s. not (any_of (is_sub s.user_id res) all)) (scanned rows) ≡ false
  unfolding any_of keep scan_subs set_last_update new_link_subscription
  scanned_listed all [] h = refl
  scanned_listed all (r ∷ rows) h = elim (==_cases r.res_id res) [
    | inr (ne, e) ↦ rw e (scanned_listed all rows (ground arith))
    | inl (q, e) ↦ rw e (elim (Option-cases r.last_update) [
      | inl f ↦ rw f (scanned_listed all rows (ground arith))
      | inr (t, f) ↦ rw f (ground (arith, scanned_listed all rows, q))
    ])
  ]

  pub listed_self :
      (all rows : List SubRow)
      → Distinct same_sub rows
      → ((r : SubRow)
          → any_of (is_sub r.user_id r.res_id) rows ≡ true
          → any_of (is_sub r.user_id r.res_id) all ≡ true)
      → any_of (λ r. not (any_of (is_sub r.user_id r.res_id) all)) rows ≡ false
  unfolding any_of
  listed_self all [] d h = refl
  listed_self all (r ∷ rows) d h = ground (
    arith,
    h r,
    ==_refl r.user_id,
    ==_refl r.res_id,
    listed_self all rows d.1 (λ x e. h x (ground arith)),
  )

  -- Keys without a row.
  abbrev pub unlisted : List SubRow → ℕ × ℕ → Bool
  unlisted all e = not (any_of (is_sub e.0 res) all)
