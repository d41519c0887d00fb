-- ===== src/Scrapper/Crawler/Process.antt =====
-- The crawler's work on one link, processLink of internal/scrapper/application/crawler_case.go, on a
-- database without failures.
use linktracker_eng.Prelude.{
  ℕ, ◌≡◌, refl, ap, ap₂, sym, ◌∙◌, true, false, List, [], ◌∷◌, ◌++◌, map, none, is_nil, any_of,
  arith, Bool-cases, inl, inr, any_of-map, keep, Result, ok,
}
use mathlib.Core.List.{Perm, append-nil}
use mathlib.Core.List.Perm
use linktracker_eng.Exec.{◌>>=◌, pure}
use linktracker_eng.Exec.Steps.{bind_ok, attempt_lem, or_return_ok}
use linktracker_eng.Db.{statement}
use linktracker_eng.Db.Quiet.{quiet, live, statement_ok, with_transaction_ok}
use linktracker_eng.Scrapper.Errors.{Sentinel}
use linktracker_eng.Scrapper.Link.{TrackedLink}
use linktracker_eng.Scrapper.Tables.{Tables, SubRow, ResourceShot, LinkSubscription, is_sub}
use linktracker_eng.Scrapper.Repo.{some_rows}
use linktracker_eng.Scrapper.Repo.Subs
use linktracker_eng.Scrapper.Repo.Subs.{update_where}
use linktracker_eng.Scrapper.Repo.Outbox
use linktracker_eng.Scrapper.Invariant.{IsWellFormed}
use linktracker_eng.Scrapper.Service.Removal.{count_of-pos}
use linktracker_eng.Scrapper.Crawler.{
  UserTimes, update_times, process_link_tx, process_link, commit_updates, user_ids, readdressed,
  get_resource_shot, with_shots,
}
use linktracker_eng.Scrapper.Crawler.Announced.{
  announced, address_all_lem, noted_all, announced-readdressed, noted_all-readdressed,
}
use linktracker_eng.Scrapper.Crawler.Noted.{noted_all_nobody}
use linktracker_eng.Scrapper.Crawler.Rows.{scanned, unlisted}
use linktracker_eng.Scrapper.Crawler.CaughtUp.{
  set_last, put, caught_up, rows_caught_up, keys_listed,
}

module _ (res : ℕ) where
  update_last_update :
      (user at now : ℕ) (t : Tables)
      → any_of (is_sub user res) t.subs ≡ true
      → Subs.update_subscription_last_update user res at (live t now) ≡ (
        ok tt,
        live (record t { subs = map (update_where (is_sub user res) (set_last at)) t.subs }) now,
      )
  unfolding Subs.update_subscription_last_update some_rows pure
  update_last_update user at now t h =
      bind_ok _ _ (statement_ok (Subs.update_subs (is_sub user res) (set_last at)) refl)
      ∙ rw (count_of-pos (is_sub user res) t.subs h) refl

  map-put :
      (e : ℕ × ℕ) (es : UserTimes) (rows : List SubRow)
      → map (put res es) (map (update_where (is_sub e.0 res) (set_last e.1)) rows)
        ≡ map (put res (e ∷ es)) rows
  map-put e es [] = refl
  map-put e es (r ∷ rows) = ap (λ l. put res (e ∷ es) r ∷ l) (map-put e es rows)

  map-put_nil : (rows : List SubRow) → map (put res []) rows ≡ rows
  map-put_nil [] = refl
  map-put_nil (r ∷ rows) = ap (λ l. r ∷ l) (map-put_nil rows)

  any_of-update :
      (user u at : ℕ) (rows : List SubRow)
      → any_of (is_sub user res) (map (update_where (is_sub u res) (set_last at)) rows)
        ≡ any_of (is_sub user res) rows
  any_of-update user u at rows =
      any_of-map (is_sub user res) (update_where (is_sub u res) (set_last at)) rows
        (λ r. ground arith)

  unlisted-update :
      (u at : ℕ) (rows : List SubRow) (es : UserTimes)
      → any_of (unlisted res rows) es ≡ false
      → any_of (unlisted res (map (update_where (is_sub u res) (set_last at)) rows)) es ≡ false
  unfolding any_of
  unlisted-update u at rows [] h = refl
  unlisted-update u at rows (e ∷ es) h =
      rw (any_of-update e.0 u at rows) (ground (arith, unlisted-update u at rows es))

  update_times_lem :
      (es : UserTimes) (now : ℕ) (t : Tables)
      → any_of (unlisted res t.subs) es ≡ false
      → update_times res es none (live t now)
        ≡ (ok none, live (record t { subs = map (put res es) t.subs }) now)
  unfolding update_times pure any_of
  update_times_lem [] now t h = rw (map-put_nil t.subs) refl
  update_times_lem ((user, at) ∷ es) now t h =
      bind_ok _ _ (attempt_lem _ (update_last_update user at now t (ground arith)))
      ∙ update_times_lem es now _ (unlisted-update user at t.subs es (ground arith))
      ∙ rw (map-put (user, at) es t.subs) refl

pub get_subscriptions_lem :
    (res now : ℕ) (t : Tables)
    → Subs.get_subscriptions_by_resource_id res (quiet t now)
      ≡ (ok (scanned res t.subs), quiet t now)
unfolding Subs.get_subscriptions_by_resource_id statement ◌>>=◌ pure
get_subscriptions_lem res now t = refl

nil_of_is_nil : (xs : List ResourceShot) → is_nil xs ≡ true → xs ≡ []
nil_of_is_nil [] h = refl
nil_of_is_nil (x ∷ xs) h = cc

-- The tables after a link has been processed with what was found for it.
abbrev pub processed : TrackedLink → ℕ → List ResourceShot → Tables → Tables
processed link now shots t =
    let updates = announced (scanned link.id t.subs) shots in
    record t {
      subs = map (caught_up link.id shots) t.subs;
      outbox = t.outbox ++ Outbox.number_rows t.serial now updates;
      serial = Outbox.next_serial t.serial updates;
    }

module _ (order : UserTimes → UserTimes) (perm : (m : UserTimes) → Perm (order m) m)
    (link : TrackedLink) (now : ℕ) (t : Tables) (w : IsWellFormed t)
    (shots : List ResourceShot) where
  abbrev subs : List LinkSubscription
  subs = scanned link.id t.subs

  abbrev times : UserTimes
  times = noted_all shots subs []

  process_link_tx_lem :
      process_link_tx order link times (announced subs shots) (live t now)
      ≡ (ok tt, live (processed link now shots t) now)
  unfolding process_link_tx Outbox.add_batch
  process_link_tx_lem =
      bind_ok _ _ (
        update_times_lem link.id (order times) now t
          (keys_listed link.id shots t.subs w.subs_distinct (order times) (perm times)))
      ∙ rw (rows_caught_up link.id shots t.subs w.subs_distinct (order times) (perm times))
          (or_return_ok _ _ (statement_ok (Outbox.insert_shots (announced subs shots)) refl))

  -- Nothing to announce is nothing to write.
  pub processed_nothing : is_nil (announced subs shots) ≡ true → processed link now shots t ≡ t
  processed_nothing h =
      rw
        (
          sym (
              rows_caught_up link.id shots t.subs w.subs_distinct []
                (rw (noted_all_nobody shots subs [] h) (Perm.refl []))),
          map-put_nil link.id t.subs,
          nil_of_is_nil _ h,
          append-nil,
        )
        refl

  commit_updates_lem :
      commit_updates order link (announced subs shots, times) (quiet t now)
      ≡ (ok tt, quiet (processed link now shots t) now)
  unfolding pure
  commit_updates_lem = elim (Bool-cases (is_nil (announced subs shots))) [
    | inl e ↦ rw (e, processed_nothing e) refl
    | inr e ↦ rw e (with_transaction_ok _ process_link_tx_lem)
  ]

pub process_link_lem :
    (order : UserTimes → UserTimes) (perm : (m : UserTimes) → Perm (order m) m)
    (search_resource : TrackedLink → Result Sentinel (List ResourceShot)) (link : TrackedLink)
    (shots : List ResourceShot) (now : ℕ) (t : Tables)
    → IsWellFormed t
    → search_resource link ≡ ok shots
    → process_link order search_resource link (quiet t now)
      ≡ (ok tt, quiet (processed link now shots t) now)
unfolding process_link get_resource_shot user_ids pure keep
process_link_lem order perm search_resource link shots now t w found =
    bind_ok _ _ (attempt_lem _ (get_subscriptions_lem link.id now t)) ∙ rw found (with_found shots)
  where
    subs : List LinkSubscription
    subs = scanned link.id t.subs

    with_found :
        (xs : List ResourceShot)
        → with_shots order link subs (ok (map (readdressed (user_ids subs)) xs)) (quiet t now)
          ≡ (ok tt, quiet (processed link now xs t) now)
    with_found [] = rw (processed_nothing order perm link now t w [] refl) refl
    with_found (x ∷ xs) =
        ap (λ p. commit_updates order link p (quiet t now))
          (address_all_lem (map (readdressed (user_ids subs)) (x ∷ xs)) subs [] []
            ∙ ap₂ (λ a b. (a, b)) (announced-readdressed (user_ids subs) subs (x ∷ xs))
                (noted_all-readdressed (user_ids subs) subs (x ∷ xs) []))
        ∙ commit_updates_lem order perm link now t w (x ∷ xs)
