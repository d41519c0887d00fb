-- ===== src/Scrapper/CrawlerTests.antt =====
-- The crawler on concrete tables: two subscribers, of whom one has seen the first of two shots.
use linktracker_eng.Prelude.{
  ℕ, ◌≡◌, refl, true, false, List, [], ◌∷◌, map, some, codes, All, Error, sentinel, fault, join,
  db_failure, tx_aborted, wrap, Result, ok, err, any_of, keep, sort, pos, arith, text_eq, Distinct,
}
use mathlib.Core.List.{Perm}
use mathlib.Core.List.Perm
use linktracker_eng.Exec.{◌>>◌, ◌>>=◌, pure, attempt}
use linktracker_eng.Db.{Session, statement, with_transaction}
use linktracker_eng.Db.Quiet.{quiet}
use linktracker_eng.Scrapper.Errors.{Sentinel, unauthorized}
use linktracker_eng.Scrapper.Link.{TrackedLink, git_hub, create_tracked_link, source_text}
use linktracker_eng.Scrapper.Tables.{
  Tables, SubRow, LinkRow, ResourceShot, empty_tables, has_user, has_link,
}
use linktracker_eng.Scrapper.Repo.Outbox
use linktracker_eng.Scrapper.Repo.Subs
use linktracker_eng.Scrapper.Repo.Subs.{scan_subs}
use linktracker_eng.Scrapper.Repo.Links
use linktracker_eng.Scrapper.Repo.Links.{collect_links}
use linktracker_eng.Scrapper.Repo.{some_rows}
use linktracker_eng.Scrapper.Invariant.{IsWellFormed}
use linktracker_eng.Scrapper.Crawler.{
  UserTimes, process_link, notify_subscribers, run_links, error_shot, update_times, process_link_tx,
  address_all, get_resource_shot,
}
use linktracker_eng.Scrapper.Crawler.Process.{processed, process_link_lem}
use linktracker_eng.Scrapper.Crawler.Again.{process_link_twice}
use linktracker_eng.Scrapper.Crawler.Failing.{process_link_failed, process_link_crawl_error}
use linktracker_eng.Scrapper.Crawler.Batches.{IsLink, links_of, same_time}
use linktracker_eng.Scrapper.Crawler.Paging.{notify_subscribers_lem}

abbrev link : TrackedLink
link = record { id = 5; path = codes "github.com/a/b"; source = git_hub }

abbrev sub : ℕ → ℕ → SubRow
sub user at = record {
  user_id = user;
  res_id = 5;
  link = codes "github.com/a/b";
  tags = [];
  last_update = some at;
}

abbrev link_row : ℕ → ℕ → LinkRow
link_row id at = record {
  link_id = id;
  path = codes "p";
  resource_type = codes "github";
  created_at = at;
}

abbrev two_subs : Tables
two_subs = record empty_tables {
  users = 7 ∷ 8 ∷ [];
  links = link_row 5 1 ∷ [];
  subs = sub 7 0 ∷ sub 8 10 ∷ [];
}

abbrev shot : ℕ → ResourceShot
shot at = record {
  id = at;
  url = codes "u";
  event_type = codes "gh|pr";
  description = [];
  author = [];
  chat_ids = [];
  updated_at = at;
}

abbrev shots : List ResourceShot
shots = shot 10 ∷ shot 20 ∷ []

abbrev found : TrackedLink → Result Sentinel (List ResourceShot)
found l = ok shots

abbrev refused : TrackedLink → Result Sentinel (List ResourceShot)
refused l = err (sentinel unauthorized)

abbrev in_order : UserTimes → UserTimes
in_order m = m

two_subs-IsWellFormed : IsWellFormed two_subs
unfolding any_of has_user has_link
two_subs-IsWellFormed = record {
  users_distinct = (refl, (refl, tt));
  ids_distinct = (refl, tt);
  paths_distinct = (refl, tt);
  subs_distinct = (refl, (refl, tt));
  subs_refer = ((refl, refl), ((refl, refl), tt));
}

-- The first shot is for 7 only, the second one for both.
processed_outbox :
    map (λ r. r.shot.chat_ids) (processed link 3 shots two_subs).outbox
    ≡ (7 ∷ []) ∷ (7 ∷ 8 ∷ []) ∷ []
unfolding scan_subs keep
processed_outbox = refl

process_link_lem_example :
    process_link in_order found link (quiet two_subs 3)
    ≡ (ok tt, quiet (processed link 3 shots two_subs) 3)
process_link_lem_example =
    process_link_lem in_order (λ m. Perm.refl m) found link shots 3 two_subs two_subs-IsWellFormed
      refl

process_link_twice_example :
    (process_link in_order found link >> process_link in_order found link) (quiet two_subs 3)
    ≡ process_link in_order found link (quiet two_subs 3)
process_link_twice_example =
    process_link_twice in_order (λ m. Perm.refl m) found link shots 3 two_subs two_subs-IsWellFormed
      refl

process_link_crawl_error_example : process_link in_order refused link (quiet two_subs 3) ≡ (
  ok tt,
  quiet
      (record two_subs {
        outbox = Outbox.outbox_row 1 3 (error_shot link (7 ∷ 8 ∷ [])) ∷ [];
        serial = 2;
      })
      3,
)
unfolding scan_subs keep
process_link_crawl_error_example =
    process_link_crawl_error in_order refused link (sentinel unauthorized) 3 two_subs refl

-- A session in which the third statement fails: begin, and the first update of two.
abbrev third_fails : Session Tables
third_fails = record (quiet two_subs 3) { faults = false ∷ false ∷ true ∷ [] }

abbrev failed_run : Result Sentinel (Unit {0}) × Session Tables
failed_run = process_link in_order found link third_fails

abbrev failure : Error Sentinel
failure = wrap "last update in repo" (join (fault db_failure) (fault tx_aborted))

failed_run_err : failed_run.0 ≡ err failure
unfolding process_link process_link_tx update_times Subs.get_subscriptions_by_resource_id
    Subs.update_subscription_last_update some_rows address_all get_resource_shot ◌>>=◌ pure
    scan_subs keep statement with_transaction
failed_run_err = refl

process_link_failed_example : failed_run.1.tables ≡ two_subs
process_link_failed_example =
    process_link_failed in_order found link third_fails failure failed_run_err

abbrev two_links : Tables
two_links = record empty_tables { links = link_row 6 2 ∷ link_row 5 1 ∷ [] }

two_links-IsLink : All IsLink two_links.links
unfolding create_tracked_link source_text text_eq
two_links-IsLink = (
  (record { id = 6; path = codes "p"; source = git_hub }, refl),
  ((record { id = 5; path = codes "p"; source = git_hub }, refl), tt),
)

two_links-Distinct : Distinct same_time two_links.links
unfolding any_of
two_links-Distinct = (refl, (refl, tt))

abbrev as_given : List TrackedLink → List TrackedLink
as_given links = links

-- Three batches of one link at most.
notify_subscribers_lem_example :
    (links : List TrackedLink) × Perm links (links_of two_links.links)
    × (notify_subscribers in_order found 4 as_given 3 (pos 1) (quiet two_links 3)
        ≡ (ok (some 2), (run_links in_order found links (quiet two_links 3)).1))
notify_subscribers_lem_example =
    notify_subscribers_lem in_order found 4 as_given (λ l. Perm.refl l) 0 3 3 two_links
      two_links-IsLink two_links-Distinct (ground arith) (ground arith)

-- Links of the same time, which a batch parts: the crawl ends after the first batch.
abbrev tied : Tables
tied = record empty_tables { links = link_row 6 1 ∷ link_row 5 1 ∷ [] }

tied_missed :
    (notify_subscribers in_order found 4 as_given 3 (pos 1) (quiet tied 3)).0 ≡ ok (some 1)
unfolding notify_subscribers statement ◌>>=◌ pure collect_links keep sort create_tracked_link
    text_eq source_text run_links process_link Subs.get_subscriptions_by_resource_id attempt
    Links.get_links_batch
tied_missed = refl
