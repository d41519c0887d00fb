-- ===== src/Scrapper/Crawler/Noted.antt =====
-- How far each subscriber has been served: userUpdate of processLink in
-- internal/scrapper/application/crawler_case.go.
use linktracker_eng.Prelude.{
  ℕ, ◌<◌, max, ◌≡◌, refl, ap, sym, ◌∙◌, ◌⊎◌, Bool, true, false, List, [], ◌∷◌, Option, none, some,
  ltb, ◌==◌, if◌then◌else◌, is_nil, keep, any_of, Distinct, arith, Bool-cases, ==_cases, inl, inr,
}
use linktracker_eng.Scrapper.Tables.{ResourceShot, LinkSubscription}
use linktracker_eng.Scrapper.Crawler.{UserTimes, time_of}
use linktracker_eng.Scrapper.Crawler.Times.{
  time_of-note_time, same_key, Distinct-note_time, bad, bad-note_time,
}
use linktracker_eng.Scrapper.Crawler.Announced.{receivers, announced, noted, noted_all}

-- The time of a subscriber, and the latest of a time and those of the shots.
abbrev pub sub_time : ℕ → List LinkSubscription → Option ℕ
sub_time user [] = none
sub_time user (s ∷ ss) = if s.user_id == user then some s.last_update else sub_time user ss

abbrev pub latest : ℕ → List ResourceShot → ℕ
latest t [] = t
latest t (shot ∷ shots) = latest (max t shot.updated_at) shots

abbrev pub same_subscriber : LinkSubscription → LinkSubscription → Bool
same_subscriber a b = b.user_id == a.user_id

abbrev raised : Option ℕ → ℕ → ℕ → ℕ
raised none at t = t
raised (some seen) at t = if ltb seen at then max t at else t

pub sub_time-none :
    (user : ℕ) (subs : List LinkSubscription)
    → any_of (λ s. s.user_id == user) subs ≡ false
    → sub_time user subs ≡ none
unfolding any_of
sub_time-none user [] h = refl
sub_time-none user (s ∷ ss) h = ground (arith, sub_time-none user ss)

module _ (user : ℕ) where
  time_of-noted :
      (shot : ResourceShot) (subs : List LinkSubscription) (times : UserTimes)
      → Distinct same_subscriber subs
      → time_of user (noted shot subs times)
        ≡ raised (sub_time user subs) shot.updated_at (time_of user times)
  time_of-noted shot [] times d = refl
  time_of-noted shot (s ∷ ss) times d =
      time_of-noted shot ss _ d.1 ∙ elim (==_cases s.user_id user) [
        | inl (e, f) ↦
            rw (f, sub_time-none user ss (rw (sym e) d.0))
              (ground (arith, f, time_of-note_time user s.user_id shot.updated_at times))
        | inr (ne, f) ↦ rw f (
            ap (raised (sub_time user ss) shot.updated_at)
              (ground (arith, f, time_of-note_time user s.user_id shot.updated_at times)))
      ]

  -- What has been noted for a subscriber: nothing yet, or the latest time, which is new to it.
  abbrev pub Reached : ℕ → ℕ → ℕ → Type 0
  Reached seen t last = ((t ≡ 0) × (last ≡ seen)) ⊎ ((t ≡ last) × (seen < last))

  Reached-raised :
      (seen t last at : ℕ)
      → Reached seen t last
      → Reached seen (raised (some seen) at t) (max last at)
  Reached-raised seen t last at (inl (e, f)) = elim (Bool-cases (ltb seen at)) [
    | inl b ↦ rw b (inr (ground arith, ground arith))
    | inr b ↦ rw b (inl (e, ground arith))
  ]
  Reached-raised seen t last at (inr (e, f)) = elim (Bool-cases (ltb seen at)) [
    | inl b ↦ rw b (inr (ground arith, ground arith))
    | inr b ↦ rw b (inr (ground arith, ground arith))
  ]

  pub noted_all-Reached :
      (shots : List ResourceShot) (subs : List LinkSubscription) (times : UserTimes) (seen last : ℕ)
      → Distinct same_subscriber subs
      → sub_time user subs ≡ some seen
      → Reached seen (time_of user times) last
      → Reached seen (time_of user (noted_all shots subs times)) (latest last shots)
  noted_all-Reached [] subs times seen last d h r = r
  noted_all-Reached (shot ∷ shots) subs times seen last d h r =
      noted_all-Reached shots subs (noted shot subs times) seen (max last shot.updated_at) d h (
        rw (time_of-noted shot subs times d, h)
          (Reached-raised seen (time_of user times) last shot.updated_at r))

Distinct-noted :
    (shot : ResourceShot) (subs : List LinkSubscription) (times : UserTimes)
    → Distinct same_key times
    → Distinct same_key (noted shot subs times)
Distinct-noted shot [] times d = d
Distinct-noted shot (s ∷ ss) times d = elim (Bool-cases (ltb s.last_update shot.updated_at)) [
  | inl e ↦ rw e (Distinct-noted shot ss _ (Distinct-note_time s.user_id shot.updated_at times d))
  | inr e ↦ rw e (Distinct-noted shot ss times d)
]

pub Distinct-noted_all :
    (shots : List ResourceShot) (subs : List LinkSubscription) (times : UserTimes)
    → Distinct same_key times
    → Distinct same_key (noted_all shots subs times)
Distinct-noted_all [] subs times d = d
Distinct-noted_all (shot ∷ shots) subs times d =
    Distinct-noted_all shots subs _ (Distinct-noted shot subs times d)

-- Keys are subscribers, and have times.
module _ (p : ℕ → Bool) where
  noted_good :
      (shot : ResourceShot) (subs : List LinkSubscription) (times : UserTimes)
      → any_of (λ s. p s.user_id) subs ≡ false
      → any_of (bad p) times ≡ false
      → any_of (bad p) (noted shot subs times) ≡ false
  unfolding any_of
  noted_good shot [] times h k = k
  noted_good shot (s ∷ ss) times h k = elim (Bool-cases (ltb s.last_update shot.updated_at)) [
    | inl e ↦ rw e (
        noted_good shot ss _ (ground arith)
          (bad-note_time p s.user_id shot.updated_at times (ground arith) k))
    | inr e ↦ rw e (noted_good shot ss times (ground arith) k)
  ]

  pub noted_all_good :
      (shots : List ResourceShot) (subs : List LinkSubscription) (times : UserTimes)
      → any_of (λ s. p s.user_id) subs ≡ false
      → any_of (bad p) times ≡ false
      → any_of (bad p) (noted_all shots subs times) ≡ false
  noted_all_good [] subs times h k = k
  noted_all_good (shot ∷ shots) subs times h k =
      noted_all_good shots subs _ h (noted_good shot subs times h k)

-- Where no shot is new to anybody, nothing is noted.
noted_nobody :
    (shot : ResourceShot) (subs : List LinkSubscription) (times : UserTimes)
    → is_nil (receivers subs shot) ≡ true
    → noted shot subs times ≡ times
unfolding keep
noted_nobody shot [] times h = refl
noted_nobody shot (s ∷ ss) times h = elim (Bool-cases (ltb s.last_update shot.updated_at)) [
  | inl e ↦ absurd (ground arith)
  | inr e ↦ rw e (noted_nobody shot ss times (ground arith))
]

pub noted_all_nobody :
    (shots : List ResourceShot) (subs : List LinkSubscription) (times : UserTimes)
    → is_nil (announced subs shots) ≡ true
    → noted_all shots subs times ≡ times
unfolding keep
noted_all_nobody [] subs times h = refl
noted_all_nobody (shot ∷ shots) subs times h = elim (Bool-cases (is_nil (receivers subs shot))) [
  | inl e ↦ noted_all_nobody shots subs _ (ground arith) ∙ noted_nobody shot subs times e
  | inr e ↦ absurd (ground arith)
]

pub not-any_of-sub_time :
    (user : ℕ) (subs : List LinkSubscription)
    → sub_time user subs ≡ none
    → any_of (λ s. s.user_id == user) subs ≡ false
unfolding any_of
not-any_of-sub_time user [] h = refl
not-any_of-sub_time user (s ∷ ss) h = elim (Bool-cases (s.user_id == user)) [
  | inl e ↦ absurd (ground arith)
  | inr e ↦ rw e (not-any_of-sub_time user ss (ground arith))
]
