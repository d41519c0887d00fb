-- ===== src/Scrapper/Requests.antt =====
-- The methods of LinkService (internal/scrapper/application/subscription_cached_case.go) as
-- requests, served one after another.
pub mod Laws
use linktracker_eng.Prelude.{ℕ, List, [], ◌∷◌, Text}
use linktracker_eng.Exec.{pure, ◌>>=◌, ◌>>◌}
use linktracker_eng.Db.{Session}
use linktracker_eng.Scrapper.Tables.{Tables, LinkSubscription}
use linktracker_eng.Scrapper.Repo.{Op}
use linktracker_eng.Scrapper.Service
use linktracker_eng.Scrapper.Service.Bodies.{Env}

pub data Request : Type 0 where
  get_links : ℕ → Request
  subscribe : ℕ → Text → ℕ → List Text → Request  -- the first is what `uuid.New()` returns
  unsubscribe : ℕ → Text → Request
  add_client : ℕ → Request
  remove_client : ℕ → Request
  add_tags : ℕ → Text → List Text → Request
  clear_tags : ℕ → Text → Request

-- A method that returns no links returns the empty list here.
abbrev pub no_links : Op Unit → Op (List LinkSubscription)
no_links m = do m; pure []

unfoldable pub serve : Env → Request → Op (List LinkSubscription)
serve env (get_links client) = Service.get_links client
serve env (subscribe new_id link client tags) =
    no_links (Service.subscribe env new_id link client tags)
serve env (unsubscribe client link) = no_links (Service.unsubscribe env client link)
serve env (add_client id) = no_links (Service.add_client id)
serve env (remove_client id) = no_links (Service.remove_client id)
serve env (add_tags client link tags) = no_links (Service.add_tags env client link tags)
serve env (clear_tags client link) = no_links (Service.clear_tags env client link)

unfoldable pub serve_all : Env → List Request → Session Tables → Session Tables
unfolding serve
serve_all env [] s = s
serve_all env (r ∷ rs) s = serve_all env rs (serve env r s).1
