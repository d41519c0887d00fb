-- ===== src/Scrapper/Crawler/Running.antt =====
-- The crawler's work on a list of links: it leaves the table of links as it is.
use linktracker_eng.Prelude.{
  ℕ, ◌≡◌, refl, List, [], ◌∷◌, ◌++◌, Option, none, some, Error, Result, ok, err, is_nil, wrap, ◌==◌,
}
use linktracker_eng.Exec.{pure, attempt, ◌>>=◌}
use linktracker_eng.Exec.Keeps.{
  Keeps, Keeps-bind, Keeps-attempt, Keeps-pure, Keeps-raise, Keeps-if, Keeps-or_return, keeps_rules,
}
use linktracker_eng.Db.{Session}
use linktracker_eng.Db.Calm.{Calm, Steady, Steady-statement, Calm-statement, Calm-with_transaction}
use linktracker_eng.Scrapper.Errors.{Sentinel, is, not_found}
use linktracker_eng.Scrapper.Link.{TrackedLink}
use linktracker_eng.Scrapper.Tables.{Tables, ResourceShot, LinkSubscription, LinkRow, is_sub}
use linktracker_eng.Scrapper.Repo.{some_rows}
use linktracker_eng.Scrapper.Repo.Subs
use linktracker_eng.Scrapper.Repo.Outbox
use linktracker_eng.Scrapper.Crawler.{
  UserTimes, process_link, process_link_tx, process_err_link_tx, user_ids, get_resource_shot,
  with_subscribers, with_shots, address_all, update_times, add_updates, joined, run_links,
}
use linktracker_eng.Scrapper.Crawler.CaughtUp.{set_last}

module _ (rows : List LinkRow) where
  abbrev pub HasLinks : Tables → Type 0
  HasLinks t = t.links ≡ rows

  add_batch-Steady : (shots : List ResourceShot) → Keeps (Steady HasLinks) (Outbox.add_batch shots)
  unfolding Outbox.add_batch
  add_batch-Steady shots = Steady-statement HasLinks (Outbox.insert_shots shots) (λ now t h. h)

  update_last_update-Steady :
      (user res at : ℕ) → Keeps (Steady HasLinks) (Subs.update_subscription_last_update user res at)
  unfolding Subs.update_subscription_last_update some_rows
  update_last_update-Steady user res at =
      Keeps-bind _ _
        (Steady-statement HasLinks (Subs.update_subs (is_sub user res) (set_last at))
          (λ now t h. h))
        λ n. search keeps_rules

  update_times-Steady :
      (res : ℕ) (es : UserTimes) (errs : Option (Error Sentinel))
      → Keeps (Steady HasLinks) (update_times res es errs)
  unfolding update_times
  update_times-Steady res [] errs = Keeps-pure errs
  update_times-Steady res ((user, at) ∷ es) errs =
      Keeps-bind _ _ (Keeps-attempt _ (update_last_update-Steady user res at))
        λ r. update_times-Steady res es (joined errs r)

  add_updates-Steady :
      (updates : List ResourceShot) (errs : Option (Error Sentinel))
      → Keeps (Steady HasLinks) (add_updates updates errs)
  add_updates-Steady updates none = Keeps-or_return _ _ (add_batch-Steady updates)
  add_updates-Steady updates (some e) = Keeps-raise (wrap "last update in repo" e)

  module _ (order : UserTimes → UserTimes)
      (search_resource : TrackedLink → Result Sentinel (List ResourceShot)) where
    with_shots-Calm :
        (link : TrackedLink) (subs : List LinkSubscription)
        (r : Result Sentinel (List ResourceShot))
        → Keeps (Calm HasLinks) (with_shots order link subs r)
    unfolding process_link_tx process_err_link_tx
    with_shots-Calm link subs (err e) =
        Calm-with_transaction HasLinks _ (Keeps-or_return _ _ (add_batch-Steady _))
    with_shots-Calm link subs (ok shots) =
        let (updates, times) = address_all shots subs ([], []) in
        Keeps-if (is_nil shots) _ _ (Keeps-pure tt) (
          Keeps-if (is_nil updates) _ _ (Keeps-pure tt) (
            Calm-with_transaction HasLinks _ (
              Keeps-bind _ _ (update_times-Steady link.id (order times) none)
                (add_updates-Steady updates))))

    with_subscribers-Calm :
        (link : TrackedLink) (r : Result Sentinel (List LinkSubscription))
        → Keeps (Calm HasLinks) (with_subscribers order search_resource link r)
    with_subscribers-Calm link (err e) =
        Keeps-if (is e not_found) _ _ (Keeps-pure tt)
          (Keeps-raise (wrap "get subscribers for link" e))
    with_subscribers-Calm link (ok subs) =
        with_shots-Calm link subs (get_resource_shot (user_ids subs) (search_resource link))

    process_link-Calm :
        (link : TrackedLink) → Keeps (Calm HasLinks) (process_link order search_resource link)
    unfolding process_link Subs.get_subscriptions_by_resource_id
    process_link-Calm link =
        Keeps-bind _ _
          (Keeps-attempt _ (
            Keeps-bind _ _
              (Calm-statement HasLinks (Subs.select_subs (λ s. s.res_id == link.id)) (λ now t h. h))
              (λ found. Keeps-pure _)))
          (with_subscribers-Calm link)

    pub run_links-Calm :
        (links : List TrackedLink) → Keeps (Calm HasLinks) (run_links order search_resource links)
    unfolding run_links
    run_links-Calm [] = Keeps-pure tt
    run_links-Calm (l ∷ ls) =
        Keeps-bind _ _ (Keeps-attempt _ (process_link-Calm l)) λ r. run_links-Calm ls

module _ (order : UserTimes → UserTimes)
    (search_resource : TrackedLink → Result Sentinel (List ResourceShot)) where
  -- The links are gone through whatever becomes of each.
  pub run_links_ok :
      (links : List TrackedLink) (s : Session Tables)
      → run_links order search_resource links s
        ≡ (ok tt, (run_links order search_resource links s).1)
  unfolding run_links attempt ◌>>=◌ pure
  run_links_ok [] s = refl
  run_links_ok (l ∷ ls) s = run_links_ok ls (process_link order search_resource l s).1

  pub run_links-append :
      (front back : List TrackedLink) (s : Session Tables)
      → run_links order search_resource (front ++ back) s
        ≡ run_links order search_resource back (run_links order search_resource front s).1
  unfolding run_links attempt ◌>>=◌ pure
  run_links-append [] back s = refl
  run_links-append (l ∷ front) back s =
      run_links-append front back (process_link order search_resource l s).1
