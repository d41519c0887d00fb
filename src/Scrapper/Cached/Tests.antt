-- ===== src/Scrapper/Cached/Tests.antt =====
-- The cache on the concrete tables of the service's tests.
use linktracker_eng.Prelude.{ℕ, ◌≡◌, ◌≢◌, refl, sym, Bool, true, false, ◌==◌, [], ◌∷◌, wrap, arith}
use linktracker_eng.Exec.{map_error}
use linktracker_eng.Db.Quiet.{quiet}
use linktracker_eng.Scrapper.Tables.{has_user}
use linktracker_eng.Scrapper.Service
use linktracker_eng.Scrapper.Service.Tracking.{links_of}
use linktracker_eng.Scrapper.Requests.{Request, serve}
use linktracker_eng.Scrapper.Frame.Service.{serve-other_client}
use linktracker_eng.Scrapper.Cached.{Cached, Cache, cached, cached_get_links, serve_cached}
use linktracker_eng.Scrapper.Cached.Coherence.{
  Agrees, Coherent, serve_cached-Coherent, cached_get_links_lem,
}
use linktracker_eng.Scrapper.Tests.{env, link, one_sub, registered}

abbrev start : Cached
start = record { session = quiet one_sub 1; cache = []; cache_faults = [] }

empty-Agrees : Agrees [] one_sub
unfolding cached
empty-Agrees k links e = cc

start-Coherent : Coherent start
start-Coherent = record { agrees = empty-Agrees; works = refl }

serve_cached-Coherent_example : Coherent (serve_cached env (Request.unsubscribe 7 link) start).1
serve_cached-Coherent_example =
    serve_cached-Coherent env (Request.unsubscribe 7 link) start start-Coherent

-- The cache holds what the tables hold of the client.
abbrev warm : Cache
warm = (7, links_of 7 one_sub) ∷ []

warm-Agrees : Agrees warm one_sub
unfolding cached
warm-Agrees k links e = by_key (7 == k) refl
  where
    by_key :
        (b : Bool) → (7 == k) ≡ b → (has_user k one_sub.users ≡ true) × (links ≡ links_of k one_sub)
    by_key true f = let same : 7 ≡ k = ground arith in rw (sym same) (registered, ground arith)
    by_key false f = absurd (ground arith)

cached_get_links_lem_example :
    (cached_get_links env 7
      (record { session = quiet one_sub 1; cache = warm; cache_faults = [] })).0
    ≡ map_error (wrap "get links") (Service.get_links 7 (quiet one_sub 1)).0
cached_get_links_lem_example = cached_get_links_lem env 7 1 one_sub warm warm-Agrees

eight_is_not_seven : ◌≢◌ {A = ℕ} 8 7
eight_is_not_seven e = absurd (omega arith)

serve-other_client_example :
    let s' = (serve env (Request.unsubscribe 7 link) (quiet one_sub 1)).1 in
    (has_user 8 s'.tables.users ≡ has_user 8 one_sub.users)
    × (links_of 8 s'.tables ≡ links_of 8 one_sub)
serve-other_client_example =
    serve-other_client env (Request.unsubscribe 7 link) 8 (quiet one_sub 1) eight_is_not_seven
