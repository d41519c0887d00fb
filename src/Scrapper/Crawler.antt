-- ===== src/Scrapper/Crawler.antt =====
-- The crawler's use case, internal/scrapper/application/crawler_case.go and crawler_tx.go. What the
-- crawler finds for a link, the order in which the workers take the links of a batch, and the order
-- in which `range` goes through a map are parameters.
pub mod Times
pub mod Announced
pub mod Noted
pub mod Rows
pub mod CaughtUp
pub mod Process
pub mod Again
pub mod Failing
pub mod Running
pub mod Batches
pub mod Paging
use linktracker_eng.Prelude.{
  ℕ, zero, suc, ◌+◌, Bool, true, false, List, [], ◌∷◌, ◌++◌, map, Option, none, some, Text, codes,
  ltb, ◌==◌, if◌then◌else◌, is_nil, length, Error, sentinel, wrap, join, Result, ok, err, ℤ, pos,
  negsuc,
}
use linktracker_eng.Exec.{pure, raise, or_return, attempt, ◌>>=◌, ◌>>◌}
use linktracker_eng.Db.{with_transaction}
use linktracker_eng.Scrapper.Errors.{Sentinel, is, not_found}
use linktracker_eng.Scrapper.Link.{TrackedLink}
use linktracker_eng.Scrapper.Tables.{ResourceShot, LinkSubscription}
use linktracker_eng.Scrapper.Repo.{Op}
use linktracker_eng.Scrapper.Repo.Links
use linktracker_eng.Scrapper.Repo.Subs
use linktracker_eng.Scrapper.Repo.Outbox

-- map[int64]time.Time; a missing key has the zero time
abbrev pub UserTimes : Type 0
UserTimes = List (ℕ × ℕ)

unfoldable pub time_of : ℕ → UserTimes → ℕ
time_of id [] = 0
time_of id ((k, t) ∷ rest) = let found = time_of id rest in if k == id then t else found

unfoldable pub set_time : ℕ → ℕ → UserTimes → UserTimes
set_time id t [] = (id, t) ∷ []
set_time id t ((k, old) ∷ rest) =
    let others = set_time id t rest in if k == id then (k, t) ∷ rest else (k, old) ∷ others

-- if t.After(m[id]) { m[id] = t }
unfoldable pub note_time : ℕ → ℕ → UserTimes → UserTimes
unfolding time_of set_time
note_time id t times = if ltb (time_of id times) t then set_time id t times else times

-- The loop over the subscribers of one shot: those it is new to, and the times noted for them.
unfoldable pub address :
    ResourceShot → List LinkSubscription → List ℕ × UserTimes → List ℕ × UserTimes
unfolding note_time
address shot [] acc = acc
address shot (s ∷ ss) (ids, times) =
    let skipped = address shot ss (ids, times) in
    let noted =
      address shot ss (ids ++ s.user_id ∷ [], note_time s.user_id shot.updated_at times) in
    if ltb s.last_update shot.updated_at then noted else skipped

abbrev pub add_update :
    ResourceShot → List ResourceShot → List ℕ × UserTimes → List ResourceShot × UserTimes
add_update shot updates ([], times) = (updates, times)
add_update shot updates (id ∷ ids, times) =
    (updates ++ record shot { chat_ids = id ∷ ids } ∷ [], times)

-- The loop over the shots.
unfoldable pub address_all :
    List ResourceShot
    → List LinkSubscription
    → List ResourceShot × UserTimes
    → List ResourceShot × UserTimes
unfolding address
address_all [] subs acc = acc
address_all (shot ∷ shots) subs (updates, times) =
    address_all shots subs (add_update shot updates (address shot subs ([], times)))

unfoldable pub user_ids : List LinkSubscription → List ℕ
user_ids = map (λ s. s.user_id)

-- The shot that tells the subscribers of an error.
abbrev pub error_shot : TrackedLink → List ℕ → ResourceShot
error_shot link ids = record {
  id = 0;
  url = link.path;
  event_type = [];
  description = codes "some errors occurred while crawl your link subscription";
  author = [];
  chat_ids = ids;
  updated_at = 0;
}

-- errors.Join(errs, err), with none for nil
abbrev pub joined : Option (Error Sentinel) → Result Sentinel (Unit {0}) → Option (Error Sentinel)
joined errs (ok a) = errs
joined none (err e) = some e
joined (some e) (err e') = some (join e e')

-- The loop of processLinkTx, and the errors it joins.
unfoldable pub update_times : ℕ → UserTimes → Option (Error Sentinel) → Op (Option (Error Sentinel))
update_times res [] errs = pure errs
update_times res ((user, at) ∷ rest) errs = do
  r ← attempt (Subs.update_subscription_last_update user res at)
  update_times res rest (joined errs r)

abbrev pub add_updates : List ResourceShot → Option (Error Sentinel) → Op (Unit {0})
add_updates updates (some e) = raise (wrap "last update in repo" e)
add_updates updates none = or_return (Outbox.add_batch updates) (wrap "send batch to outbox")

unfoldable pub process_err_link_tx : ResourceShot → Op (Unit {0})
process_err_link_tx shot = or_return (Outbox.add_batch (shot ∷ [])) (wrap "send update for link")

abbrev pub readdressed : List ℕ → ResourceShot → ResourceShot
readdressed ids shot = record shot { chat_ids = ids }

-- getResourceShot, on the answer of the crawler
unfoldable pub get_resource_shot :
    List ℕ → Result Sentinel (List ResourceShot) → Result Sentinel (List ResourceShot)
get_resource_shot ids (err e) = err e
get_resource_shot ids (ok shots) = ok (map (readdressed ids) shots)

abbrev pub short : ℕ → ℤ → Bool
short n (negsuc k) = false
short n (pos size) = ltb n size

abbrev pub next_round : ℕ → Bool → Option ℕ → (Option ℕ → Op (Option ℕ)) → Op (Option ℕ)
next_round count last none again = pure (some count)
next_round count true (some p) again = pure (some count)
next_round count false (some p) again = again (some p)

module _ (order : UserTimes → UserTimes) where
  unfoldable pub process_link_tx : TrackedLink → UserTimes → List ResourceShot → Op (Unit {0})
  unfolding update_times
  process_link_tx link times updates = do
    errs ← update_times link.id (order times) none
    add_updates updates errs

  abbrev pub commit_updates : TrackedLink → List ResourceShot × UserTimes → Op (Unit {0})
  commit_updates link (updates, times) =
      if is_nil updates then pure tt else with_transaction (process_link_tx link times updates)

  abbrev pub with_shots :
      TrackedLink → List LinkSubscription → Result Sentinel (List ResourceShot) → Op (Unit {0})
  with_shots link subs (err e) =
      with_transaction (process_err_link_tx (error_shot link (user_ids subs)))
  with_shots link subs (ok shots) =
      if is_nil shots then pure tt else commit_updates link (address_all shots subs ([], []))

  module _ (search_resource : TrackedLink → Result Sentinel (List ResourceShot)) where
    abbrev pub with_subscribers :
        TrackedLink → Result Sentinel (List LinkSubscription) → Op (Unit {0})
    with_subscribers link (err e) =
        if is e not_found then pure tt else raise (wrap "get subscribers for link" e)
    with_subscribers link (ok subs) =
        with_shots link subs (get_resource_shot (user_ids subs) (search_resource link))

    unfoldable pub process_link : TrackedLink → Op (Unit {0})
    unfolding process_link_tx process_err_link_tx get_resource_shot user_ids address_all is
    process_link link = do
      subs ← attempt (Subs.get_subscriptions_by_resource_id link.id)
      with_subscribers link subs

    -- The links, in the order in which the workers take them; an error is only logged.
    unfoldable pub run_links : List TrackedLink → Op (Unit {0})
    unfolding process_link
    run_links [] = pure tt
    run_links (l ∷ ls) = do attempt (process_link l); run_links ls

    module _ (workers : ℕ) (schedule : List TrackedLink → List TrackedLink) where
      -- Without workers, wg.Wait() returns at once.
      unfoldable pub process_links : List TrackedLink → Op (Unit {0})
      unfolding run_links
      process_links links = if workers == 0 then pure tt else run_links (schedule links)

      -- The loop of NotifySubscribers, and the count that goes to the metrics; none for no fuel.
      unfoldable pub notify_from : ℕ → ℤ → Option ℕ → ℕ → Op (Option ℕ)
      unfolding process_links
      notify_from zero size pointer count = pure none
      notify_from (suc fuel) size pointer count = do
        batch ← Links.get_links_batch size pointer
        process_links batch.0
        next_round (count + length batch.0) (short (length batch.0) size) batch.1
            (λ p. notify_from fuel size p (count + length batch.0))

      unfoldable pub notify_subscribers : ℕ → ℤ → Op (Option ℕ)
      unfolding notify_from
      notify_subscribers fuel size = notify_from fuel size none 0
