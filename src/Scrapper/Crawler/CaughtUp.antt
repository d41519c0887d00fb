-- ===== src/Scrapper/Crawler/CaughtUp.antt =====
-- What processLinkTx makes of the rows of a link's subscribers, in whatever order it goes through
-- the map: internal/scrapper/application/crawler_tx.go.
use linktracker_eng.Prelude.{
  ℕ, ◌≡◌, refl, ap, ap₂, ◌∙◌, Bool, true, false, not, ◌⊎◌, List, [], ◌∷◌, map, Option, none, some,
  ◌==◌, if◌then◌else◌, any_of, All, Distinct, arith, Bool-cases, Option-cases, ==_cases, ==_iff,
  ==_refl, inl, inr, any_of-Perm,
}
use mathlib.Core.List.{Perm}
use linktracker_eng.Scrapper.Tables.{SubRow, ResourceShot, LinkSubscription, is_sub}
use linktracker_eng.Scrapper.Repo.Subs.{update_where}
use linktracker_eng.Scrapper.Invariant.{same_sub}
use linktracker_eng.Scrapper.Crawler.{UserTimes, time_of}
use linktracker_eng.Scrapper.Crawler.Times.{
  has_key, misfit, no_misfit, has_key_of_time_of, bad, time_of-has_key,
}
use linktracker_eng.Scrapper.Crawler.Announced.{noted_all}
use linktracker_eng.Scrapper.Crawler.Noted.{
  sub_time, latest, noted_all-Reached, noted_all_good, not-any_of-sub_time, Distinct-noted_all,
}
use linktracker_eng.Scrapper.Crawler.Rows.{
  scanned, IsRead, All-IsRead, Distinct-scanned, scanned_listed, listed_self, unlisted,
}

abbrev pub set_last : ℕ → SubRow → SubRow
set_last at s = record s { last_update = some at }

-- A row after the updates of a map's entries.
abbrev pub put : ℕ → UserTimes → SubRow → SubRow
put res [] r = r
put res (e ∷ es) r = put res es (update_where (is_sub e.0 res) (set_last e.1) r)

put_other : (res : ℕ) (es : UserTimes) (r : SubRow) → (r.res_id == res) ≡ false → put res es r ≡ r
put_other res [] r h = refl
put_other res (e ∷ es) r h = elim (Bool-cases (r.user_id == e.0)) [
  | inl u ↦ rw (u, h) (put_other res es r h)
  | inr u ↦ rw u (put_other res es r h)
]

set_last_if :
    (k : Bool) (t at : ℕ) (r : SubRow)
    → at ≡ t
    → (if k then set_last t r else set_last at r) ≡ set_last t r
set_last_if true t at r e = refl
set_last_if false t at r e = rw e refl

put_lem :
    (res : ℕ) (m es : UserTimes) (r : SubRow)
    → any_of (misfit m) es ≡ false
    → (r.res_id == res) ≡ true
    → put res es r ≡ (if has_key r.user_id es then set_last (time_of r.user_id m) r else r)
unfolding any_of
put_lem res m [] r h q = refl
put_lem res m ((k, at) ∷ es) r h q = elim (==_cases r.user_id k) [
  | inl (u, f) ↦
      rw (f, q)
        (put_lem res m es (set_last at r) (ground arith) q
          ∙ set_last_if (has_key r.user_id es) (time_of r.user_id m) at r
              (rw u (ground (arith, ==_iff at (time_of k m))))
          ∙ rw (u, ==_refl k) refl)
  | inr (ne, f) ↦ rw f (
      put_lem res m es r (ground arith) q
      ∙ ap (λ b. if b then set_last (time_of r.user_id m) r else r) (ground arith))
]

-- What is to become of the row of a subscriber: it has seen all the shots.
abbrev pub seen_until : List ResourceShot → Option ℕ → Option ℕ
seen_until shots none = none
seen_until shots (some t) = some (latest t shots)

abbrev pub caught_up : ℕ → List ResourceShot → SubRow → SubRow
caught_up res shots r =
    if r.res_id == res then record r { last_update = seen_until shots r.last_update } else r

module _ (res : ℕ) (shots : List ResourceShot) (rows : List SubRow)
    (d : Distinct same_sub rows) where
  abbrev pub written : UserTimes
  written = noted_all shots (scanned res rows) []

  good :
      (p : ℕ → Bool)
      → any_of (λ s. p s.user_id) (scanned res rows) ≡ false
      → any_of (bad p) written ≡ false
  unfolding any_of
  good p h = noted_all_good p shots (scanned res rows) [] h refl

  no_key : (user : ℕ) → sub_time user (scanned res rows) ≡ none → has_key user written ≡ false
  no_key user h = elim (Bool-cases (has_key user written)) [
    | inr e ↦ e
    | inl e ↦ absurd (
        ground (
          arith,
          ==_refl user,
          time_of-has_key (λ k. k == user) user written
              (good (λ k. k == user) (not-any_of-sub_time user (scanned res rows) h)) e,
        ))
  ]

  any_of-never : (subs : List LinkSubscription) → any_of (λ s. false) subs ≡ false
  unfolding any_of
  any_of-never [] = refl
  any_of-never (s ∷ subs) = any_of-never subs

  seen :
      (user t : ℕ)
      → sub_time user (scanned res rows) ≡ some t
      → ((has_key user written ≡ false) × (latest t shots ≡ t))
        ⊎ ((has_key user written ≡ true) × (time_of user written ≡ latest t shots))
  unfolding time_of
  seen user t h =
      elim (noted_all-Reached user shots (scanned res rows) [] t t (Distinct-scanned res rows d) h
        (inl (refl, refl))) [
          | inr (e, l) ↦ inr (has_key_of_time_of user written (omega arith), e)
          | inl (z, l) ↦ elim (Bool-cases (has_key user written)) [
            | inr e ↦ inl (e, l)
            | inl e ↦ absurd (
                omega (
                  arith,
                  (time_of-has_key (λ k. false) user written (good (λ k. false) (any_of-never _))
                      e).0,
                ))
          ]
        ]

  pub row_caught_up :
      (r : SubRow) (es : UserTimes)
      → Perm es written
      → IsRead res rows r
      → put res es r ≡ caught_up res shots r
  row_caught_up r es p read = elim (Bool-cases (r.res_id == res)) [
    | inr e ↦ put_other res es r e ∙ rw e refl
    | inl e ↦
        put_lem res written es r
          (any_of-Perm (misfit written) p
            ∙ no_misfit written (Distinct-noted_all shots (scanned res rows) [] tt))
          e
        ∙ rw (e, any_of-Perm (λ x. x.0 == r.user_id) p)
            (elim (Option-cases r.last_update) [
              | inl f ↦ rw (no_key r.user_id (read e ∙ f)) (rw f refl)
              | inr (t, f) ↦ elim (seen r.user_id t (read e ∙ f)) [
                | inl (k, l) ↦ rw k (rw f (rw l refl))
                | inr (k, l) ↦ rw (k, l) (rw f refl)
              ]
            ])
  ]

  map-caught_up :
      (es : UserTimes) (tail : List SubRow)
      → Perm es written
      → All (IsRead res rows) tail
      → map (put res es) tail ≡ map (caught_up res shots) tail
  map-caught_up es [] p reads = refl
  map-caught_up es (r ∷ tail) p reads =
      ap₂ (λ a l. a ∷ l) (row_caught_up r es p reads.0) (map-caught_up es tail p reads.1)

  pub rows_caught_up :
      (es : UserTimes) → Perm es written → map (put res es) rows ≡ map (caught_up res shots) rows
  rows_caught_up es p = map-caught_up es rows p (All-IsRead res rows d)

  weaker :
      (es : UserTimes)
      → any_of (bad (λ k. not (any_of (is_sub k res) rows))) es ≡ false
      → any_of (unlisted res rows) es ≡ false
  unfolding any_of
  weaker [] h = refl
  weaker (e ∷ es) h = ground (arith, weaker es)

  pub keys_listed : (es : UserTimes) → Perm es written → any_of (unlisted res rows) es ≡ false
  keys_listed es p =
      any_of-Perm (unlisted res rows) p
      ∙ weaker written (
          good (λ k. not (any_of (is_sub k res) rows))
            (scanned_listed res rows rows (listed_self res rows rows d (λ r h. h))))
