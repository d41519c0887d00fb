-- ===== src/Scrapper/Crawler/Paging.antt =====
-- NotifySubscribers of internal/scrapper/application/crawler_case.go: the loop over the batches.
use linktracker_eng.Prelude.{
  ℕ, zero, suc, ◌+◌, ◌<◌, ◌≢◌, ◌≡◌, refl, ap, ap₂, sym, ◌∙◌, true, false, List, [], ◌∷◌, ◌++◌,
  Option, none, some, ltb, ◌==◌, if◌then◌else◌, keep, sort, take, length, All, All-keep, All-sort,
  Distinct, arith, Bool-cases, inl, inr, sort-Perm, length-sort, Result, ok, pos,
}
use mathlib.Core.List.{Perm, filter_map, append-nil}
use mathlib.Core.List.Perm
use mathlib.Core.Path.{subst}
use linktracker_eng.Exec.{pure}
use linktracker_eng.Exec.Steps.{bind_ok}
use linktracker_eng.Db.{Session}
use linktracker_eng.Db.Quiet.{quiet}
use linktracker_eng.Db.Calm.{Calm, statement_reads}
use linktracker_eng.Scrapper.Errors.{Sentinel}
use linktracker_eng.Scrapper.Link.{TrackedLink}
use linktracker_eng.Scrapper.Tables.{Tables, LinkRow, ResourceShot}
use linktracker_eng.Scrapper.Repo.Links
use linktracker_eng.Scrapper.Repo.Links.{before, after_pointer, collect_links}
use linktracker_eng.Scrapper.Crawler.{
  UserTimes, process_links, run_links, notify_from, notify_subscribers, next_round, short,
}
use linktracker_eng.Scrapper.Crawler.Running.{
  HasLinks, run_links-Calm, run_links_ok, run_links-append,
}
use linktracker_eng.Scrapper.Crawler.Batches.{
  same_time, rest_of, drop, last_time, rest_of_next, links_of, IsLink, collect_links_lem,
  length-links_of,
}

length-take-drop :
    (n : ℕ) (rows : List LinkRow) → length (take n rows) + length (drop n rows) ≡ length rows
length-take-drop zero rows = omega arith
length-take-drop (suc n) [] = refl
length-take-drop (suc n) (r ∷ rows) = omega (arith, length-take-drop n rows)

take_short :
    (n : ℕ) (rows : List LinkRow) → ltb (length (take n rows)) n ≡ true → take n rows ≡ rows
take_short zero rows h = absurd (ground arith)
take_short (suc n) [] h = refl
take_short (suc n) (r ∷ rows) h = ap (λ l. r ∷ l) (take_short n rows (ground arith))

All-take : (n : ℕ) (rows : List LinkRow) → All IsLink rows → All IsLink (take n rows)
All-take zero rows a = tt
All-take (suc n) [] a = tt
All-take (suc n) (r ∷ rows) a = (a.0, All-take n rows a.1)

last_time-some : (t : ℕ) (rows : List LinkRow) → (p : ℕ) × (last_time (some t) rows ≡ some p)
last_time-some t [] = (t, refl)
last_time-some t (r ∷ rows) = last_time-some r.created_at rows

links_of-take-drop :
    (n : ℕ) (rows : List LinkRow) → links_of (take n rows) ++ links_of (drop n rows) ≡ links_of rows
unfolding links_of filter_map
links_of-take-drop zero rows = refl
links_of-take-drop (suc n) [] = refl
links_of-take-drop (suc n) (r ∷ rows) = ground (arith, links_of-take-drop n rows)

module _ (schedule : List TrackedLink → List TrackedLink) (n : ℕ) where
  -- All links that the batches of the rows name, in the order in which the workers take them.
  abbrev pub plan : ℕ → List LinkRow → List TrackedLink
  plan zero rows = []
  plan (suc fuel) rows =
      let later = plan fuel (drop n rows) in
      schedule (links_of (take n rows)) ++ (if ltb (length (take n rows)) n then [] else later)

module _ (schedule : List TrackedLink → List TrackedLink)
    (perm : (links : List TrackedLink) → Perm (schedule links) links) (k : ℕ) where
  plan-Perm :
      (fuel : ℕ) (rows : List LinkRow)
      → length rows < fuel
      → Perm (plan schedule (suc k) fuel rows) (links_of rows)
  plan-Perm zero rows h = absurd (omega arith)
  plan-Perm (suc fuel) rows h = elim (Bool-cases (ltb (length (take (suc k) rows)) (suc k))) [
    | inl e ↦ rw (e, append-nil, take_short (suc k) rows e) (perm (links_of rows))
    | inr e ↦
        rw (e, sym (links_of-take-drop (suc k) rows))
          (Perm.append (perm (links_of (take (suc k) rows)))
            (plan-Perm fuel (drop (suc k) rows) (ground (arith, length-take-drop (suc k) rows))))
  ]

module _ (order : UserTimes → UserTimes)
    (search_resource : TrackedLink → Result Sentinel (List ResourceShot)) (workers : ℕ)
    (schedule : List TrackedLink → List TrackedLink) (k : ℕ) (rows : List LinkRow)
    (good : All IsLink rows) (d : Distinct same_time rows) (some_workers : workers ≢ 0) where
  IsLink-rest_of : (pointer : Option ℕ) → All IsLink (rest_of rows pointer)
  IsLink-rest_of pointer =
      All-sort before IsLink _ (All-keep IsLink (after_pointer pointer) rows good)

  get_links_batch_lem :
      (n : ℕ) (pointer : Option ℕ) (s : Session Tables)
      → Calm (HasLinks rows) s
      → let batch = take n (rest_of rows pointer) in
        Links.get_links_batch (pos n) pointer s ≡ (ok (links_of batch, last_time none batch), s)
  unfolding Links.get_links_batch pure
  get_links_batch_lem n pointer s c =
      let batch = take n (rest_of rows pointer) in
      bind_ok _ _ (
        statement_reads (HasLinks rows) (Links.select_batch n pointer) {a = batch} c
          (rw c.steady.holds refl))
      ∙ ap (λ x. (ok x, s))
          (collect_links_lem batch [] none
            (All-take n (rest_of rows pointer) (IsLink-rest_of pointer)))

  process_links_lem :
      (links : List TrackedLink) (s : Session Tables)
      → process_links order search_resource workers schedule links s
        ≡ (ok tt, (run_links order search_resource (schedule links) s).1)
  unfolding process_links
  process_links_lem links s =
      let busy : (workers == 0) ≡ false = ground arith in
      rw busy (run_links_ok order search_resource (schedule links) s)

  abbrev all_of : ℕ → List LinkRow → List TrackedLink
  all_of = plan schedule (suc k)

  -- The rest of a round, once its batch is known.
  notify_round :
      (fuel : ℕ) (pointer : Option ℕ) (count : ℕ) (s : Session Tables)
      → Calm (HasLinks rows) s
      → let batch = take (suc k) (rest_of rows pointer) in
        notify_from order search_resource workers schedule (suc fuel) (pos (suc k)) pointer count s
        ≡ next_round
            (count + length (links_of batch))
            (short (length (links_of batch)) (pos (suc k)))
            (last_time none batch)
            (λ p.
              notify_from order search_resource workers schedule fuel
                (pos (suc k))
                p
                (count + length (links_of batch)))
            (run_links order search_resource (schedule (links_of batch)) s).1
  unfolding notify_from
  notify_round fuel pointer count s c =
      bind_ok _ _ (get_links_batch_lem (suc k) pointer s c)
      ∙ bind_ok _ _ (process_links_lem (links_of (take (suc k) (rest_of rows pointer))) s)

  -- The loop from a pointer on, with enough fuel.
  notify_from_lem :
      (fuel : ℕ) (pointer : Option ℕ) (count : ℕ) (s : Session Tables) (rest : List LinkRow)
      → rest_of rows pointer ≡ rest
      → length rest < fuel
      → Calm (HasLinks rows) s
      → notify_from order search_resource workers schedule fuel (pos (suc k)) pointer count s ≡ (
        ok (some (count + length rest)),
        (run_links order search_resource (all_of fuel rest) s).1,
      )
  unfolding pure
  notify_from_lem zero pointer count s rest e h c = absurd (omega arith)
  notify_from_lem (suc fuel) pointer count s [] e h c =
      let last : ltb 0 (suc k) ≡ true = ground arith in
      notify_round fuel pointer count s c
      ∙ rw e (rw (length-links_of [] tt) (rw (last, append-nil) refl))
  notify_from_lem (suc fuel) pointer count s (r ∷ more) e h c =
      let (p, q) = last_time-some r.created_at (take k more) in
      let s1 = (run_links order search_resource (schedule (links_of (r ∷ take k more))) s).1 in
      let len =
        length-links_of (r ∷ take k more)
          (All-take (suc k) (r ∷ more) (subst (All IsLink) e (IsLink-rest_of pointer))) in
      notify_round fuel pointer count s c
      ∙ rw e (
          rw (len, q)
            (elim (Bool-cases (ltb (suc (length (take k more))) (suc k))) [
              | inl f ↦
                  (let whole = take_short k more (ground arith) in
                    rw (f, append-nil) (rw whole refl))
              | inr f ↦ rw f (
                  notify_from_lem fuel (some p) (count + suc (length (take k more))) s1
                    (drop k more) (rest_of_next rows d pointer k r more p e q)
                    (omega (arith, length-take-drop k more))
                    ((run_links-Calm rows order search_resource
                        (schedule (links_of (r ∷ take k more)))).kept
                      s c)
                  ∙ ap₂ (λ (n : ℕ) (x : Session Tables). (ok (some n), x))
                      (omega (arith, length-take-drop k more))
                      (ap (λ x. x.1)
                        (sym (
                          run_links-append order search_resource
                            (schedule (links_of (r ∷ take k more))) (all_of fuel (drop k more))
                            s))))
            ]))

links_of-Perm : {xs ys : List LinkRow} → Perm xs ys → Perm (links_of xs) (links_of ys)
unfolding links_of
links_of-Perm p = Perm.filter_map _ p

keep_all : (rows : List LinkRow) → keep (after_pointer none) rows ≡ rows
unfolding keep
keep_all [] = refl
keep_all (r ∷ rows) = ap (λ l. r ∷ l) (keep_all rows)

-- A crawl gets round to every link: where the stored times of the links differ and each row is a
-- link, NotifySubscribers goes through its batches to the end, and does the work of processLink
-- on all links, each of them once, in an order that the workers choose; it counts them all. The
-- database has no failures, there are workers, and the batch size is positive.
pub notify_subscribers_lem :
    (order : UserTimes → UserTimes)
    (search_resource : TrackedLink → Result Sentinel (List ResourceShot)) (workers : ℕ)
    (schedule : List TrackedLink → List TrackedLink)
    (perm : (links : List TrackedLink) → Perm (schedule links) links) (k fuel now : ℕ) (t : Tables)
    → All IsLink t.links
    → Distinct same_time t.links
    → workers ≢ 0
    → length t.links < fuel
    → (links : List TrackedLink) × Perm links (links_of t.links)
      × (notify_subscribers order search_resource workers schedule fuel (pos (suc k)) (quiet t now)
          ≡ (ok (some (length t.links)), (run_links order search_resource links (quiet t now)).1))
unfolding notify_subscribers
notify_subscribers_lem order search_resource workers schedule perm k fuel now t good d some_workers
      h =
    let sorted = sort before t.links in
    let len = length-sort before t.links in
    (
      plan schedule (suc k) fuel sorted,
      Perm.trans (plan-Perm schedule perm k fuel sorted (omega (arith, len)))
          (links_of-Perm (sort-Perm before t.links)),
      notify_from_lem order search_resource workers schedule k t.links good d some_workers fuel none
            0 (quiet t now) sorted (ap (sort before) (keep_all t.links)) (omega (arith, len))
            (record {
              steady = record { no_faults = refl; holds = refl };
              no_tx = refl;
              sound = refl;
            })
          ∙ ap
              (λ (n : ℕ). (
                ok (some n),
                (run_links order search_resource (plan schedule (suc k) fuel sorted)
                    (quiet t now)).1,
              ))
              (omega (arith, len)),
    )
