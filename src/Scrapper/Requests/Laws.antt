-- ===== src/Scrapper/Requests/Laws.antt =====
-- What holds of every request, with any script of database failures.
use linktracker_eng.Prelude.{ℕ, List, [], ◌∷◌, ◌≡◌, arith, Error, err}
use linktracker_eng.Exec.{or_return, ◌>>=◌}
use linktracker_eng.Db.{Session, statement}
use linktracker_eng.Db.Laws.{tables-with_transaction_err}
use linktracker_eng.Scrapper.Errors.{Sentinel}
use linktracker_eng.Scrapper.Tables.{Tables}
use linktracker_eng.Scrapper.Repo.{Op}
use linktracker_eng.Scrapper.Repo.Users
use linktracker_eng.Scrapper.Service
use linktracker_eng.Scrapper.Service.Bodies.{Env}
use linktracker_eng.Scrapper.Requests.{
  Request, get_links, subscribe, add_client, no_links, serve, serve_all,
}
use linktracker_eng.Scrapper.Invariant.{IsWellFormed}
use linktracker_eng.Scrapper.Invariant.Repos.{KeepsForm}
use linktracker_eng.Scrapper.Invariant.Service.{service_rules}

serve-keeps : (env : Env) (r : Request) → KeepsForm (serve env r)
unfolding serve
serve-keeps env (get_links client) = search service_rules
serve-keeps env (subscribe new_id link client tags) = search service_rules
serve-keeps env _ = search service_rules

-- From well-formed tables, whatever the requests, their outcomes and the failures of the database,
-- the tables stay well formed: users, link ids, link paths and the pairs of a user and a link are
-- distinct, and each subscription refers to a user and a link that are there.
pub serve_all-IsWellFormed :
    (env : Env) (requests : List Request) (s : Session Tables)
    → IsWellFormed s.tables
    → IsWellFormed (serve_all env requests s).tables
unfolding serve_all
serve_all-IsWellFormed env [] s h = h
serve_all-IsWellFormed env (r ∷ rs) s h =
    serve_all-IsWellFormed env rs (serve env r s).1 ((serve-keeps env r).kept s h)

tables-no_links :
    (m : Op Unit) (s : Session Tables) {e : Error Sentinel}
    → ((x : Error Sentinel) → (m s).0 ≡ err x → (m s).1.tables ≡ s.tables)
    → (no_links m s).0 ≡ err e
    → (no_links m s).1.tables ≡ s.tables
unfolding ◌>>=◌
tables-no_links m s {e} k h = ground (arith, k e)

add_client-tables :
    (id : ℕ) (s : Session Tables) (x : Error Sentinel)
    → (Service.add_client id s).0 ≡ err x
    → (Service.add_client id s).1.tables ≡ s.tables
unfolding Service.add_client Users.add_client statement or_return
add_client-tables id s x h = ground arith

-- A request that returns an error leaves the tables as they were.
pub serve_error-tables :
    (env : Env) (r : Request) (s : Session Tables) {e : Error Sentinel}
    → (serve env r s).0 ≡ err e
    → (serve env r s).1.tables ≡ s.tables
unfolding serve Service.get_links Service.subscribe Service.unsubscribe Service.remove_client
    Service.add_tags Service.clear_tags
serve_error-tables env (get_links client) s h = tables-with_transaction_err _ s h
serve_error-tables env (add_client id) s h = tables-no_links _ s (add_client-tables id s) h
serve_error-tables env (subscribe new_id link client tags) s h =
    tables-no_links _ s (λ x. tables-with_transaction_err _ s) h
serve_error-tables env _ s h = tables-no_links _ s (λ x. tables-with_transaction_err _ s) h
