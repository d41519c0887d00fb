-- ===== src/Scrapper/Crawlers.antt =====
-- The crawlers, internal/scrapper/infrastructure/crawlers. The HTTP client with the JSON decoder,
-- url.PathEscape and `time.Parse(time.RFC3339, …)` are arguments. Times are in nanoseconds.
pub mod Laws
use linktracker_eng.Prelude.{
  ℕ, ◌+◌, ◌*◌, Bool, List, [], ◌∷◌, ◌++◌, map, Option, none, some, Text, codes, ltb, ◌==◌,
  if◌then◌else◌, keep, is_nil, rune_bound, split_n, path_clean, Error, sentinel, fault,
  crawl_failure, Result, ok, err,
}
use linktracker_eng.Scrapper.Errors.{Sentinel, unauthorized}
use linktracker_eng.Scrapper.Link.{TrackedLink, stack_overflow, git_hub}
use linktracker_eng.Scrapper.Tables.{ResourceShot}

-- What the code sets of a request.
pub record HttpRequest : Type 0 where
  pub path : Text
  pub query : Text
  pub headers : List (Text × Text)

-- No response, or a status and what the decoder makes of the body.
pub data HttpAnswer (A : Type 0) : Type 0 where
  no_response : HttpAnswer A
  response : ℕ → Option A → HttpAnswer A

pub record GithubEvent : Type 0 where
  pub id : ℕ
  pub url : Text
  pub user_url : Text
  pub updated_at : Text
  pub body : Text
  pub is_pull_request : Bool

pub record SoAnswer : Type 0 where
  pub answer_id : ℕ
  pub updated_at : ℕ  -- last_edit_date, 0 where the answer has none
  pub body : Text
  pub link : Text
  pub owner_name : Text
  pub owner_link : Text

pub record SoEvent : Type 0 where
  pub id : ℕ
  pub title : Text
  pub author : Text
  pub author_url : Text
  pub url : Text
  pub preview : Text
  pub created_at : ℕ

module _ {A : Type 0} where
  abbrev decoded : Option A → Result Sentinel A
  decoded none = err (fault crawl_failure)
  decoded (some a) = ok a

  -- getJSON
  unfoldable pub get_json : HttpAnswer A → Result Sentinel A
  get_json no_response = err (fault crawl_failure)
  get_json (response status data_) =
      if status == 401
      then err (sentinel unauthorized)
      else if status == 200
      then decoded data_
      else err (fault crawl_failure)

-- strings.ToValidUTF8(s, "")
unfoldable pub to_valid_utf8 : Text → Text
to_valid_utf8 = keep (λ c. ltb c rune_bound)

abbrev join_from : List Text → Text
join_from [] = []
join_from (p ∷ ps) = let rest = join_from ps in if is_nil p then rest else b'/' ∷ (p ++ rest)

-- path.Join of a rooted path, without its leading slash, and further elements
abbrev path_join : List Text → Text
path_join parts = path_clean (join_from parts)

-- time.Unix(n, 0)
abbrev pub time_unix : ℕ → ℕ
time_unix n = (62135596800 + n) * 1000000000

module _ (escape : Text → Text) where
  abbrev pub github_request : Text → Text → Text → HttpRequest
  github_request token owner repo = record {
    path = path_join (codes "repos" ∷ escape owner ∷ escape repo ∷ codes "issues" ∷ []);
    query = codes "direction=desc&sort=created&state=all";
    headers =
        (codes "User-Agent", codes "link-tracker")
        ∷ (codes "Authorization", codes "Bearer " ++ token)
        ∷ [];
  }

  abbrev pub so_request : Text → HttpRequest
  so_request question = record {
    path = path_join (codes "2.3" ∷ codes "questions" ∷ escape question ∷ []);
    query = codes "order=desc&site=stackoverflow&sort=creation";
    headers = [];
  }

module _ (parse_time : Text → Option ℕ) where
  abbrev with_time : GithubEvent → Option ℕ → ResourceShot
  with_time e none = record {
    id = e.id;
    url = e.url;
    event_type = [];
    description = codes "fail to parse updated_at: " ++ e.updated_at;
    author = [];
    chat_ids = [];
    updated_at = 0;
  }
  with_time e (some at) = record {
    id = e.id;
    url = e.url;
    event_type = if e.is_pull_request then codes "gh|pr" else codes "gh|issue";
    description = to_valid_utf8 e.body;
    author = e.user_url;
    chat_ids = [];
    updated_at = at;
  }

  -- The loop over the events.
  unfoldable pub github_shots : List GithubEvent → List ResourceShot
  unfolding to_valid_utf8
  github_shots = map (λ e. with_time e (parse_time e.updated_at))

-- buildSOEvents
unfoldable pub build_so_events : Text → List SoAnswer → List SoEvent
unfolding to_valid_utf8
build_so_events title = map λ (a : SoAnswer). record {
  id = a.answer_id;
  title = title;
  author = a.owner_name;
  author_url = a.owner_link;
  url = a.link;
  preview = to_valid_utf8 a.body;
  created_at = time_unix a.updated_at;
}

-- The loop over the events.
unfoldable pub so_shots : List SoEvent → List ResourceShot
so_shots = map λ (e : SoEvent). record {
  id = e.id;
  url = e.url;
  event_type = codes "so|answer";
  description = e.preview;
  author = e.author;
  chat_ids = [];
  updated_at = e.created_at;
}

pub record WebCrawler : Type 0 where
  pub github_token : Text
  pub escape : Text → Text
  pub parse_time : Text → Option ℕ
  pub github : HttpRequest → HttpAnswer (List GithubEvent)
  pub stack_exchange : HttpRequest → HttpAnswer (List SoAnswer)

abbrev pub as_shots :
    {A : Type 0} → (A → List ResourceShot) → Result Sentinel A → Result Sentinel (List ResourceShot)
as_shots f (err e) = err e
as_shots f (ok a) = ok (f a)

-- A crawler panics on a missing part of the path; that is none.
abbrev pub Crawled : Type 0
Crawled = Option (Result Sentinel (List ResourceShot))

module _ (w : WebCrawler) where
  abbrev github_parts : List Text → Crawled
  github_parts (_ ∷ owner ∷ repo ∷ _) = some (
      as_shots (github_shots w.parse_time)
        (get_json (w.github (github_request w.escape w.github_token owner repo))))
  github_parts _ = none

  -- githubCrawler
  unfoldable pub github_crawler : TrackedLink → Crawled
  unfolding split_n get_json github_shots path_clean
  github_crawler link = github_parts (split_n 3 b'/' link.path)

  abbrev so_parts : Text → List Text → Crawled
  so_parts title (_ ∷ _ ∷ question ∷ _) = some (
      as_shots (λ answers. so_shots (build_so_events title answers))
        (get_json (w.stack_exchange (so_request w.escape question))))
  so_parts title _ = none

  -- stackOverflowCrawler
  unfoldable pub stack_overflow_crawler : TrackedLink → Crawled
  unfolding split_n get_json build_so_events so_shots path_clean
  stack_overflow_crawler link = so_parts link.path (split_n 3 b'/' link.path)

  abbrev pub search_by_source : TrackedLink → Crawled
  search_by_source link = elim link.source [
    | stack_overflow ↦ stack_overflow_crawler link
    | git_hub ↦ github_crawler link
  ]

  -- SearchResource
  unfoldable pub search_resource : TrackedLink → Crawled
  unfolding github_crawler stack_overflow_crawler
  search_resource link = search_by_source link
