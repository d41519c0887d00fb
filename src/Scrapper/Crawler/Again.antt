-- ===== src/Scrapper/Crawler/Again.antt =====
-- A second crawl of a link that finds the same shots.
use linktracker_eng.Prelude.{
  ℕ, ◌≤◌, max, ◌≡◌, refl, ap, sym, ◌∙◌, List, [], ◌∷◌, map, ◌==◌, keep, All, All-map, Distinct-map,
  arith, Bool-cases, Option-cases, inl, inr, Result, ok,
}
use mathlib.Core.List.{Perm}
use linktracker_eng.Exec.Steps.{bind_ok}
use linktracker_eng.Exec.{◌>>◌}
use linktracker_eng.Db.Quiet.{quiet}
use linktracker_eng.Scrapper.Errors.{Sentinel}
use linktracker_eng.Scrapper.Link.{TrackedLink}
use linktracker_eng.Scrapper.Tables.{
  Tables, SubRow, ResourceShot, LinkSubscription, set_last_update, new_link_subscription,
}
use linktracker_eng.Scrapper.Repo.Subs.{scan_subs}
use linktracker_eng.Scrapper.Invariant.{IsWellFormed, same_sub, Refers}
use linktracker_eng.Scrapper.Crawler.{UserTimes, process_link}
use linktracker_eng.Scrapper.Crawler.Announced.{announced, receivers}
use linktracker_eng.Scrapper.Crawler.Noted.{latest}
use linktracker_eng.Scrapper.Crawler.Rows.{scanned}
use linktracker_eng.Scrapper.Crawler.CaughtUp.{caught_up}
use linktracker_eng.Scrapper.Crawler.Process.{processed, processed_nothing, process_link_lem}

abbrev advanced : List ResourceShot → LinkSubscription → LinkSubscription
advanced shots s = record s { last_update = latest s.last_update shots }

module _ (res : ℕ) (shots : List ResourceShot) where
  scanned-caught_up :
      (rows : List SubRow)
      → scanned res (map (caught_up res shots) rows) ≡ map (advanced shots) (scanned res rows)
  unfolding keep scan_subs set_last_update new_link_subscription
  scanned-caught_up [] = refl
  scanned-caught_up (r ∷ rows) = elim (Bool-cases (r.res_id == res)) [
    | inr e ↦ rw e (rw e (scanned-caught_up rows))
    | inl e ↦ rw e (
        rw e (elim (Option-cases r.last_update) [
          | inl f ↦ rw f (scanned-caught_up rows)
          | inr (t, f) ↦ rw f (
              ap
                (λ l.
                  advanced shots
                    (set_last_update t (new_link_subscription r.user_id r.res_id r.link r.tags))
                  ∷ l)
                (scanned-caught_up rows))
        ]))
  ]

le_latest : (n t : ℕ) (shots : List ResourceShot) → n ≤ t → n ≤ latest t shots
le_latest n t [] h = h
le_latest n t (shot ∷ shots) h = le_latest n (max t shot.updated_at) shots (omega arith)

-- A time is not later than the latest.
abbrev IsBelow : List ResourceShot → ResourceShot → Type 0
IsBelow shots shot = (t : ℕ) → shot.updated_at ≤ latest t shots

All-IsBelow-cons :
    (x : ResourceShot) (shots tail : List ResourceShot)
    → All (IsBelow shots) tail
    → All (IsBelow (x ∷ shots)) tail
All-IsBelow-cons x shots [] a = tt
All-IsBelow-cons x shots (y ∷ tail) a =
    ((λ t. a.0 (max t x.updated_at)), All-IsBelow-cons x shots tail a.1)

All-IsBelow : (shots : List ResourceShot) → All (IsBelow shots) shots
All-IsBelow [] = tt
All-IsBelow (x ∷ shots) = (
  (λ t. le_latest x.updated_at (max t x.updated_at) shots (omega arith)),
  All-IsBelow-cons x shots shots (All-IsBelow shots),
)

module _ (shots : List ResourceShot) where
  receivers_none :
      (subs : List LinkSubscription) (shot : ResourceShot)
      → IsBelow shots shot
      → receivers (map (advanced shots) subs) shot ≡ []
  unfolding keep
  receivers_none [] shot b = refl
  receivers_none (s ∷ subs) shot b = ground (arith, b s.last_update, receivers_none subs shot b)

  announced_none :
      (subs : List LinkSubscription) (tail : List ResourceShot)
      → All (IsBelow shots) tail
      → announced (map (advanced shots) subs) tail ≡ []
  unfolding keep
  announced_none subs [] a = refl
  announced_none subs (shot ∷ tail) a =
      rw (receivers_none subs shot a.0) (announced_none subs tail a.1)

module _ (link : TrackedLink) (now : ℕ) (shots : List ResourceShot) where
  same_sub-caught_up :
      (a b : SubRow)
      → same_sub (caught_up link.id shots a) (caught_up link.id shots b) ≡ same_sub a b
  same_sub-caught_up a b = ground arith

  Refers-caught_up :
      (t : Tables) (r : SubRow)
      → Refers t.users t.links r
      → Refers t.users t.links (caught_up link.id shots r)
  Refers-caught_up t r h = ground arith

  IsWellFormed-processed : (t : Tables) → IsWellFormed t → IsWellFormed (processed link now shots t)
  IsWellFormed-processed t w = record {
    users_distinct = w.users_distinct;
    ids_distinct = w.ids_distinct;
    paths_distinct = w.paths_distinct;
    subs_distinct =
        Distinct-map same_sub (caught_up link.id shots) t.subs same_sub-caught_up w.subs_distinct;
    subs_refer =
        All-map (Refers t.users t.links) (caught_up link.id shots) t.subs (Refers-caught_up t)
          w.subs_refer;
  }

-- Crawling a link again without news changes nothing: where the crawler finds the same shots twice, the
-- second run of processLink leaves the tables as the first one left them, so that no shot is
-- announced to a subscriber twice. The database has no failures, and the tables are well formed.
pub process_link_twice :
    (order : UserTimes → UserTimes) (perm : (m : UserTimes) → Perm (order m) m)
    (search_resource : TrackedLink → Result Sentinel (List ResourceShot)) (link : TrackedLink)
    (shots : List ResourceShot) (now : ℕ) (t : Tables)
    → IsWellFormed t
    → search_resource link ≡ ok shots
    → let run = process_link order search_resource link in
      (run >> run) (quiet t now) ≡ run (quiet t now)
process_link_twice order perm search_resource link shots now t w found =
    let once = process_link_lem order perm search_resource link shots now t w found in
    let again =
      process_link_lem order perm search_resource link shots now (processed link now shots t)
        (IsWellFormed-processed link now shots t w) found in
    let none_new =
      processed_nothing order perm link now (processed link now shots t)
        (IsWellFormed-processed link now shots t w) shots
        (rw
          (
            scanned-caught_up link.id shots t.subs,
            announced_none shots (scanned link.id t.subs) shots (All-IsBelow shots),
          )
          refl) in
    bind_ok _ _ once ∙ again ∙ ap (λ x. (ok tt, quiet x now)) none_new ∙ sym once
