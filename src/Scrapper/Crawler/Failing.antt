-- ===== src/Scrapper/Crawler/Failing.antt =====
-- What processLink does when it fails, and when the crawler does: crawler_case.go in
-- internal/scrapper/application.
use linktracker_eng.Prelude.{
  ◌==◌, ℕ, ◌+◌, ◌≡◌, refl, ◌∙◌, Bool, true, false, List, [], ◌∷◌, ◌++◌, map, is_nil, Error, Result,
  ok, err, if◌then◌else◌, wrap,
}
use linktracker_eng.Exec.{pure, raise, attempt, ◌>>=◌}
use linktracker_eng.Exec.Keeps.{Keeps, Keeps-bind, Keeps-attempt, Keeps-pure}
use linktracker_eng.Exec.Steps.{bind_ok, attempt_lem, or_return_ok}
use linktracker_eng.Db.{Session, with_transaction}
use linktracker_eng.Db.Keeps.{Holds, Keeps-statement}
use linktracker_eng.Db.Laws.{tables-with_transaction_err}
use linktracker_eng.Db.Quiet.{quiet, statement_ok, with_transaction_ok}
use linktracker_eng.Scrapper.Errors.{Sentinel, is, not_found}
use linktracker_eng.Scrapper.Link.{TrackedLink}
use linktracker_eng.Scrapper.Tables.{Tables, ResourceShot, LinkSubscription}
use linktracker_eng.Scrapper.Repo.{Op}
use linktracker_eng.Scrapper.Repo.Subs
use linktracker_eng.Scrapper.Repo.Outbox
use linktracker_eng.Scrapper.Crawler.{
  UserTimes, process_link, process_err_link_tx, error_shot, user_ids, get_resource_shot,
  with_subscribers, with_shots, address_all,
}
use linktracker_eng.Scrapper.Crawler.Rows.{scanned}
use linktracker_eng.Scrapper.Crawler.Process.{get_subscriptions_lem}

-- An operation that changes no table where it fails.
abbrev Atomic : {A : Type 0} → Op A → Type 0
Atomic {A} m =
    (s : Session Tables) (e : Error Sentinel) → (m s).0 ≡ err e → (m s).1.tables ≡ s.tables

Atomic-with_transaction : (m : Op (Unit {0})) → Atomic (with_transaction m)
Atomic-with_transaction m s e h = tables-with_transaction_err m s h

Atomic-pure : Atomic (pure tt)
unfolding pure
Atomic-pure s e h = refl

Atomic-raise : (e : Error Sentinel) → Atomic (raise {A = Unit {0}} e)
unfolding raise
Atomic-raise e s e' h = refl

Atomic-if : (b : Bool) (m n : Op (Unit {0})) → Atomic m → Atomic n → Atomic (if b then m else n)
Atomic-if true m n hm hn = hm
Atomic-if false m n hm hn = hn

module _ (order : UserTimes → UserTimes)
    (search_resource : TrackedLink → Result Sentinel (List ResourceShot)) (link : TrackedLink) where
  Atomic-with_shots :
      (subs : List LinkSubscription) (r : Result Sentinel (List ResourceShot))
      → Atomic (with_shots order link subs r)
  Atomic-with_shots subs (err e) =
      Atomic-with_transaction (process_err_link_tx (error_shot link (user_ids subs)))
  Atomic-with_shots subs (ok shots) = Atomic-if (is_nil shots) _ _ Atomic-pure (
      Atomic-if (is_nil (address_all shots subs ([], [])).0) _ _ Atomic-pure
        (Atomic-with_transaction _))

  Atomic-with_subscribers :
      (r : Result Sentinel (List LinkSubscription))
      → Atomic (with_subscribers order search_resource link r)
  Atomic-with_subscribers (err e) =
      Atomic-if (is e not_found) _ _ Atomic-pure (Atomic-raise (wrap "get subscribers for link" e))
  Atomic-with_subscribers (ok subs) =
      Atomic-with_shots subs (get_resource_shot (user_ids subs) (search_resource link))

  reads_only :
      (t : Tables)
      → Keeps (Holds (λ x. x ≡ t)) (attempt (Subs.get_subscriptions_by_resource_id link.id))
  unfolding Subs.get_subscriptions_by_resource_id
  reads_only t = Keeps-attempt _ (
      Keeps-bind _ _
        (Keeps-statement (λ x. x ≡ t) (Subs.select_subs (λ s. s.res_id == link.id)) (λ now x h. h))
        (λ rows. Keeps-pure _))

-- When processLink fails, whatever failed, all tables are as they were: no subscriber's last update is
-- moved on without its shots in the outbox, and no shot is in the outbox without the last updates, so
-- that the next crawl announces the same shots again.
pub process_link_failed :
    (order : UserTimes → UserTimes)
    (search_resource : TrackedLink → Result Sentinel (List ResourceShot)) (link : TrackedLink)
    (s : Session Tables) (e : Error Sentinel)
    → (process_link order search_resource link s).0 ≡ err e
    → (process_link order search_resource link s).1.tables ≡ s.tables
unfolding process_link ◌>>=◌ attempt
process_link_failed order search_resource link s e h =
    Atomic-with_subscribers order search_resource link
      (Subs.get_subscriptions_by_resource_id link.id s).0
      (Subs.get_subscriptions_by_resource_id link.id s).1 e h
    ∙ (reads_only order search_resource link s.tables).kept s refl

pub process_link_crawl_error :
    (order : UserTimes → UserTimes)
    (search_resource : TrackedLink → Result Sentinel (List ResourceShot)) (link : TrackedLink)
    (e : Error Sentinel) (now : ℕ) (t : Tables)
    → search_resource link ≡ err e
    → process_link order search_resource link (quiet t now) ≡ (
      ok tt,
      quiet
          (record t {
            outbox =
                t.outbox
                ++ Outbox.outbox_row t.serial now
                    (error_shot link (map (λ s. s.user_id) (scanned link.id t.subs)))
                  ∷ [];
            serial = t.serial + 1;
          })
          now,
    )
unfolding process_link process_err_link_tx Outbox.add_batch get_resource_shot user_ids
process_link_crawl_error order search_resource link e now t failed =
    bind_ok _ _ (attempt_lem _ (get_subscriptions_lem link.id now t))
    ∙ rw failed (
        with_transaction_ok _ (
          or_return_ok _ _ (
            statement_ok
              (Outbox.insert_shots (error_shot link (user_ids (scanned link.id t.subs)) ∷ []))
              refl)))
