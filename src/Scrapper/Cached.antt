-- ===== src/Scrapper/Cached.antt =====
-- CachedScrapperService: internal/scrapper/application/subscription_cached_case.go. The cache holds
-- the links of a client under a key that its id determines. A call of the cache fails where the
-- script says so, and then changes nothing; what the failure was is only logged.
pub mod Coherence
mod Tests
use linktracker_eng.Prelude.{
  ℕ, Bool, true, false, List, [], ◌∷◌, Option, none, some, ◌==◌, if◌then◌else◌, Error, Result, ok,
  err, wrap, String,
}
use linktracker_eng.Exec.{Exec}
use linktracker_eng.Db.{Session, failing, later}
use linktracker_eng.Scrapper.Errors.{Sentinel}
use linktracker_eng.Scrapper.Tables.{Tables, LinkSubscription}
use linktracker_eng.Scrapper.Service.Bodies.{Env}
use linktracker_eng.Scrapper.Requests.{
  Request, get_links, subscribe, unsubscribe, add_client, remove_client, add_tags, clear_tags,
  serve,
}

abbrev pub Links : Type 0
Links = List LinkSubscription

abbrev pub Cache : Type 0
Cache = List (ℕ × Links)

pub record Cached : Type 0 where
  pub session : Session Tables
  pub cache : Cache
  pub cache_faults : List Bool

unfoldable pub cached : ℕ → Cache → Option Links
cached k [] = none
cached k ((j, links) ∷ rest) = let found = cached k rest in if j == k then some links else found

unfoldable pub dropped : ℕ → Cache → Cache
dropped k [] = []
dropped k ((j, links) ∷ rest) =
    let others = dropped k rest in if j == k then others else (j, links) ∷ others

-- linksCache.Get, where an error and a miss have the same effect
abbrev pub cache_get : ℕ → Cached → Option Links
cache_get k s = if failing s.cache_faults then none else cached k s.cache

abbrev pub next_fault : Cached → Cached
next_fault s = record s { cache_faults = later s.cache_faults }

-- linksCache.Set
abbrev pub cache_set : ℕ → Links → Cached → Cached
cache_set k links s =
    if failing s.cache_faults
    then next_fault s
    else record (next_fault s) { cache = (k, links) ∷ dropped k s.cache }

-- invalidateCache
unfoldable pub invalidate_cache : ℕ → Cached → Cached
unfolding dropped
invalidate_cache k s =
    if failing s.cache_faults
    then next_fault s
    else record (next_fault s) { cache = dropped k s.cache }

abbrev pub Outcome : Type 0
Outcome = Result Sentinel Links × Cached

abbrev pub store : ℕ → Result Sentinel Links → Cached → Outcome
store k (err e) s = (err (wrap "get links" e), s)
store k (ok links) s = (ok links, cache_set k links s)

module _ (env : Env) where
  abbrev pub read_through : ℕ → Option Links → Cached → Outcome
  read_through k (some links) s = (ok links, s)
  read_through k none s =
      let (r, session) = serve env (get_links k) s.session in
      store k r (record s { session = session })

  -- GetLinks
  unfoldable pub cached_get_links : ℕ → Cached → Outcome
  unfolding cached dropped
  cached_get_links k s = read_through k (cache_get k s) (next_fault s)

  abbrev pub finish : String → (Cached → Cached) → Result Sentinel Links → Cached → Outcome
  finish op done (err e) s = (err (wrap op e), s)
  finish op done (ok links) s = (ok links, done s)

  abbrev pub forward : String → Request → (Cached → Cached) → Cached → Outcome
  forward op r done s =
      let (res, session) = serve env r s.session in
      finish op done res (record s { session = session })

  -- The methods of CachedScrapperService.
  unfoldable pub serve_cached : Request → Cached → Outcome
  unfolding cached_get_links invalidate_cache
  serve_cached (get_links k) s = cached_get_links k s
  serve_cached (subscribe id link k tags) s =
      forward "subscribe" (subscribe id link k tags) (invalidate_cache k) s
  serve_cached (unsubscribe k link) s =
      forward "unsubscribe" (unsubscribe k link) (invalidate_cache k) s
  serve_cached (add_client k) s = forward "add client" (add_client k) (λ s'. s') s
  serve_cached (remove_client k) s =
      forward "remove client" (remove_client k) (invalidate_cache k) s
  serve_cached (add_tags k link tags) s =
      forward "add tags" (add_tags k link tags) (invalidate_cache k) s
  serve_cached (clear_tags k link) s =
      forward "clear tags" (clear_tags k link) (invalidate_cache k) s
