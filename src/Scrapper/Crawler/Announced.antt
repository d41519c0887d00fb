-- ===== src/Scrapper/Crawler/Announced.antt =====
-- Which shots go to which subscribers: the loops of processLink in
-- internal/scrapper/application/crawler_case.go.
use linktracker_eng.Prelude.{
  ℕ, ◌≡◌, refl, ap, ◌∙◌, Bool, not, List, [], ◌∷◌, ◌++◌, map, ltb, if◌then◌else◌, is_nil, keep,
  Bool-cases, inl, inr,
}
use mathlib.Core.List.{append_assoc, append-nil}
use linktracker_eng.Scrapper.Tables.{ResourceShot, LinkSubscription}
use linktracker_eng.Scrapper.Crawler.{
  UserTimes, note_time, address, address_all, add_update, readdressed,
}

-- The subscribers that have not seen a shot.
abbrev pub receivers : List LinkSubscription → ResourceShot → List ℕ
receivers subs shot = map (λ s. s.user_id) (keep (λ s. ltb s.last_update shot.updated_at) subs)

abbrev pub for_receivers : List LinkSubscription → ResourceShot → ResourceShot
for_receivers subs shot = record shot { chat_ids = receivers subs shot }

abbrev pub has_receiver : ResourceShot → Bool
has_receiver shot = not (is_nil shot.chat_ids)

-- The shots that somebody has not seen, each for those who have not.
abbrev pub announced : List LinkSubscription → List ResourceShot → List ResourceShot
announced subs shots = keep has_receiver (map (for_receivers subs) shots)

abbrev pub noted : ResourceShot → List LinkSubscription → UserTimes → UserTimes
noted shot [] times = times
noted shot (s ∷ ss) times =
    noted shot ss (
      if ltb s.last_update shot.updated_at
      then note_time s.user_id shot.updated_at times
      else times)

abbrev pub noted_all : List ResourceShot → List LinkSubscription → UserTimes → UserTimes
noted_all [] subs times = times
noted_all (shot ∷ shots) subs times = noted_all shots subs (noted shot subs times)

address_lem :
    (shot : ResourceShot) (subs : List LinkSubscription) (ids : List ℕ) (times : UserTimes)
    → address shot subs (ids, times) ≡ (ids ++ receivers subs shot, noted shot subs times)
unfolding address keep
address_lem shot [] ids times = rw append-nil refl
address_lem shot (s ∷ ss) ids times = elim (Bool-cases (ltb s.last_update shot.updated_at)) [
  | inl e ↦ rw e (address_lem shot ss (ids ++ s.user_id ∷ []) _ ∙ rw append_assoc refl)
  | inr e ↦ rw e (address_lem shot ss ids times)
]

add_update_lem :
    (shot : ResourceShot) (updates : List ResourceShot) (ids : List ℕ) (times : UserTimes)
    → add_update shot updates (ids, times)
      ≡ (updates ++ keep has_receiver (record shot { chat_ids = ids } ∷ []), times)
unfolding keep
add_update_lem shot updates [] times = rw append-nil refl
add_update_lem shot updates (id ∷ ids) times = refl

pub address_all_lem :
    (shots : List ResourceShot) (subs : List LinkSubscription) (updates : List ResourceShot)
    (times : UserTimes)
    → address_all shots subs (updates, times)
      ≡ (updates ++ announced subs shots, noted_all shots subs times)
unfolding address_all keep
address_all_lem [] subs updates times = rw append-nil refl
address_all_lem (shot ∷ shots) subs updates times =
    ap (λ p. address_all shots subs (add_update shot updates p)) (address_lem shot subs [] times)
    ∙ ap (address_all shots subs) (add_update_lem shot updates (receivers subs shot) _)
    ∙ address_all_lem shots subs _ _
    ∙ elim (Bool-cases (has_receiver (for_receivers subs shot))) [
      | inl e ↦ rw e (rw append_assoc refl)
      | inr e ↦ rw e (rw append-nil refl)
    ]

-- The ids that getResourceShot puts in are overwritten.
module _ (ids : List ℕ) where
  pub announced-readdressed :
      (subs : List LinkSubscription) (shots : List ResourceShot)
      → announced subs (map (readdressed ids) shots) ≡ announced subs shots
  unfolding keep
  announced-readdressed subs [] = refl
  announced-readdressed subs (shot ∷ shots) =
      ap (λ l. if has_receiver (for_receivers subs shot) then for_receivers subs shot ∷ l else l)
        (announced-readdressed subs shots)

  pub noted_all-readdressed :
      (subs : List LinkSubscription) (shots : List ResourceShot) (times : UserTimes)
      → noted_all (map (readdressed ids) shots) subs times ≡ noted_all shots subs times
  noted_all-readdressed subs [] times = refl
  noted_all-readdressed subs (shot ∷ shots) times =
      noted_all-readdressed subs shots (noted (readdressed ids shot) subs times)
      ∙ ap (noted_all shots subs) (noted-readdressed shot subs times)
    where
      noted-readdressed :
          (shot : ResourceShot) (subs : List LinkSubscription) (times : UserTimes)
          → noted (readdressed ids shot) subs times ≡ noted shot subs times
      noted-readdressed shot [] times = refl
      noted-readdressed shot (s ∷ ss) times = noted-readdressed shot ss _
