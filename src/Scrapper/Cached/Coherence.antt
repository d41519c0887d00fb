-- ===== src/Scrapper/Cached/Coherence.antt =====
-- The cache agrees with the tables as long as its own calls do not fail.
use linktracker_eng.Prelude.{
  ℕ, ◌≡◌, ◌≢◌, refl, sym, ap, ◌∙◌, true, [], ◌∷◌, none, some, ◌==◌, ==_cases, inl, inr,
  if◌then◌else◌, ok, wrap, String, arith, Option-cases, Result-cases, any_of-snoc, keep,
}
use linktracker_eng.Exec.{map_error, ◌>>=◌, or_return}
use linktracker_eng.Db.{Session, statement, with_transaction}
use linktracker_eng.Db.Quiet.{quiet}
use linktracker_eng.Scrapper.Tables.{Tables, has_user}
use linktracker_eng.Scrapper.Repo.Users
use linktracker_eng.Scrapper.Repo.Subs
use linktracker_eng.Scrapper.Service
use linktracker_eng.Scrapper.Service.Quiet.{of_user}
use linktracker_eng.Scrapper.Service.Bodies.{Env, ensure_client_exists, links_or_empty}
use linktracker_eng.Scrapper.Service.Tracking.{links_of, get_links_lem}
use linktracker_eng.Scrapper.Requests.{
  Request, get_links, subscribe, unsubscribe, add_client, remove_client, add_tags, clear_tags,
  serve,
}
use linktracker_eng.Scrapper.Requests.Laws.{serve_error-tables}
use linktracker_eng.Scrapper.Frame.Service.{client_of, serve-other_client}
use linktracker_eng.Scrapper.Cached.{
  Cached, Cache, Links, cached, dropped, invalidate_cache, cached_get_links, serve_cached, forward,
}

-- What is cached of a client is what the tables hold, and the client is registered.
abbrev pub Agrees : Cache → Tables → Type 0
Agrees c t =
    (k : ℕ) (links : Links)
    → cached k c ≡ some links
    → (has_user k t.users ≡ true) × (links ≡ links_of k t)

pub record Coherent (s : Cached) : Type 0 where
  pub agrees : Agrees s.cache s.session.tables
  pub works : s.cache_faults ≡ []

cached-dropped :
    (k j : ℕ) (c : Cache) → cached k (dropped j c) ≡ (if j == k then none else cached k c)
unfolding cached dropped
cached-dropped k j [] = ground arith
cached-dropped k j ((i, links) ∷ c) = ground (arith, cached-dropped k j c)

-- GetLinks that succeeds has read the links of a registered client, and changed nothing.
get_links_ok :
    (env : Env) (k : ℕ) (s : Session Tables) (links : Links)
    → (serve env (get_links k) s).0 ≡ ok links
    → (has_user k s.tables.users ≡ true)
      × (links ≡ links_of k s.tables)
      × ((serve env (get_links k) s).1.tables ≡ s.tables)
unfolding serve Service.get_links with_transaction statement ensure_client_exists
    Users.get_client_by_id Subs.get_subscriptions_by_user_id links_or_empty ◌>>=◌
get_links_ok env k s links h = (ground arith, ground arith, ground arith)

-- The tables agree with less, and with the same contents of other clients.
Agrees-dropped :
    (j : ℕ) (c : Cache) (t t' : Tables)
    → ((k : ℕ)
        → k ≢ j
        → (has_user k t'.users ≡ has_user k t.users) × (links_of k t' ≡ links_of k t))
    → Agrees c t
    → Agrees (dropped j c) t'
Agrees-dropped j c t t' same a k links h = elim (==_cases j k) [
  | inl (e, f) ↦ absurd (ground (arith, cached-dropped k j c))
  | inr (ne, f) ↦
      (let (user, ls) = same k ne in
        let (user', ls') = a k links (sym (cached-dropped k j c ∙ rw f refl) ∙ h) in
        (user ∙ user', ls' ∙ sym ls))
]

Agrees-stored :
    (k : ℕ) (links : Links) (c : Cache) (t : Tables)
    → has_user k t.users ≡ true
    → links ≡ links_of k t
    → Agrees c t
    → Agrees ((k, links) ∷ dropped k c) t
unfolding cached
Agrees-stored k links c t user same a j found h = elim (==_cases k j) [
  | inl (e, f) ↦ rw (sym e) (user, ground arith)
  | inr (ne, f) ↦ a j found (ground (arith, cached-dropped j k c))
]

add_client-known :
    (env : Env) (id k : ℕ) (s : Session Tables)
    → has_user k s.tables.users ≡ true
    → let s' = (serve env (add_client id) s).1 in
      (has_user k s'.tables.users ≡ true) × (s'.tables.subs ≡ s.tables.subs)
unfolding serve Service.add_client Users.add_client statement ◌>>=◌ or_return has_user
add_client-known env id k s h =
    (ground (arith, any_of-snoc (λ u. u == k) s.tables.users id), ground arith)

module _ (env : Env) (s : Cached) (h : Coherent s) where
  -- A method that invalidates what is cached of its client.
  forward-Coherent :
      (op : String) (r : Request) → Coherent (forward env op r (invalidate_cache (client_of r)) s).1
  unfolding invalidate_cache
  forward-Coherent op r = elim (Result-cases (serve env r s.session).0) [
    | inr (e, f) ↦
        rw f
          (record { agrees = rw (serve_error-tables env r s.session f) h.agrees; works = h.works })
    | inl (ls, f) ↦
        rw (f, h.works)
          (record {
            agrees =
                Agrees-dropped (client_of r) s.cache s.session.tables
                  (serve env r s.session).1.tables (λ k. serve-other_client env r k s.session)
                  h.agrees;
            works = refl;
          })
  ]

  add_client-Agrees : (id : ℕ) → Agrees s.cache (serve env (add_client id) s.session).1.tables
  add_client-Agrees id k links e =
      let (user, ls) = h.agrees k links e in
      let (user', subs) = add_client-known env id k s.session user in
      (user', ls ∙ sym (ap (λ xs. Subs.scan_subs (keep (of_user k) xs)) subs))

  add_client-Coherent :
      (op : String) (id : ℕ) → Coherent (forward env op (add_client id) (λ s'. s') s).1
  add_client-Coherent op id =
      let known = add_client-Agrees id in
      elim (Result-cases (serve env (add_client id) s.session).0) [
        | inr (e, f) ↦ rw f (record { agrees = known; works = h.works })
        | inl (ls, f) ↦ rw f (record { agrees = known; works = h.works })
      ]

  get_links-Coherent : (k : ℕ) → Coherent (cached_get_links env k s).1
  unfolding cached_get_links
  get_links-Coherent k = elim (Option-cases (cached k s.cache)) [
    | inr (links, e) ↦ rw (h.works, e) (record { agrees = h.agrees; works = refl })
    | inl e ↦ elim (Result-cases (serve env (get_links k) s.session).0) [
      | inr (x, f) ↦
          rw (h.works, e, f)
            (record {
              agrees = rw (serve_error-tables env (get_links k) s.session f) h.agrees;
              works = refl;
            })
      | inl (links, f) ↦
          (let (user, same, tables) = get_links_ok env k s.session links f in
            rw (h.works, e, f)
              (record {
                agrees =
                    rw tables (Agrees-stored k links s.cache s.session.tables user same h.agrees);
                works = refl;
              }))
    ]
  ]

-- While the calls of the cache do not fail, each method of the cached service keeps what is cached
-- of each client equal to what the tables hold of it, whether the method succeeds or the database
-- fails.
pub serve_cached-Coherent :
    (env : Env) (r : Request) (s : Cached) → Coherent s → Coherent (serve_cached env r s).1
unfolding serve_cached
serve_cached-Coherent env (get_links k) s h = get_links-Coherent env s h k
serve_cached-Coherent env (add_client k) s h = add_client-Coherent env s h "add client" k
serve_cached-Coherent env (subscribe id link k tags) s h =
    forward-Coherent env s h "subscribe" (subscribe id link k tags)
serve_cached-Coherent env (unsubscribe k link) s h =
    forward-Coherent env s h "unsubscribe" (unsubscribe k link)
serve_cached-Coherent env (remove_client k) s h =
    forward-Coherent env s h "remove client" (remove_client k)
serve_cached-Coherent env (add_tags k link tags) s h =
    forward-Coherent env s h "add tags" (add_tags k link tags)
serve_cached-Coherent env (clear_tags k link) s h =
    forward-Coherent env s h "clear tags" (clear_tags k link)

-- On a coherent state and a database without failures, GetLinks of the cached service returns what
-- GetLinks of the service itself returns, with the error wrapped.
pub cached_get_links_lem :
    (env : Env) (k now : ℕ) (t : Tables) (c : Cache)
    → Agrees c t
    → (cached_get_links env k (record { session = quiet t now; cache = c; cache_faults = [] })).0
      ≡ map_error (wrap "get links") (Service.get_links k (quiet t now)).0
unfolding cached_get_links serve
cached_get_links_lem env k now t c a = elim (Option-cases (cached k c)) [
  | inr (links, e) ↦
      (let (user, same) = a k links e in rw (e, get_links_lem k now t user, same) refl)
  | inl e ↦ elim (Result-cases (Service.get_links k (quiet t now)).0) [
    | inr (x, f) ↦ rw (e, f) refl
    | inl (links, f) ↦ rw (e, f) refl
  ]
]
