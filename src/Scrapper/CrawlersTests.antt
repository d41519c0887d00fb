-- ===== src/Scrapper/CrawlersTests.antt =====
-- The theorems about the crawlers on concrete links and answers.
use linktracker_eng.Prelude.{
  ◌≡◌, refl, true, [], ◌∷◌, none, some, codes, ltb, split_n, path_clean, keep, ok, split, ap, List,
  text_eq, to_lower, trim_space, All, trim, arith,
}
use mathlib.Core.Path.{subst}
use linktracker_eng.Scrapper.Link.{
  TrackedLink, stack_overflow, git_hub, new_tracked_link, check_resource, split_path, clean_url,
}
use linktracker_eng.Scrapper.Tables.{ResourceShot, LinkSubscription}
use linktracker_eng.Scrapper.Crawler.Announced.{announced}
use linktracker_eng.Scrapper.Crawlers.{
  WebCrawler, HttpRequest, HttpAnswer, no_response, response, SoAnswer, get_json, time_unix,
  build_so_events, so_shots, to_valid_utf8, stack_overflow_crawler, github_crawler, search_resource,
}
use linktracker_eng.Scrapper.Crawlers.Laws.{
  panics, slashes, panics-search_resource, Unedited, answers_missed,
}
use linktracker_eng.Scrapper.Tests.{ascii}

abbrev answer : SoAnswer
answer = record {
  answer_id = 9;
  updated_at = 0;
  body = codes "try it";
  link = codes "https://stackoverflow.com/a/9";
  owner_name = codes "ann";
  owner_link = codes "https://stackoverflow.com/users/3";
}

-- Stack Exchange has one answer, which was never edited; GitHub does not respond.
abbrev w : WebCrawler
w = record {
  github_token = codes "token";
  escape = λ s. s;
  parse_time = λ s. none;
  github = λ req. no_response;
  stack_exchange = λ req. response 200 (some (answer ∷ []));
}

abbrev question : TrackedLink
question = record { id = 5; path = codes "stackoverflow.com/questions/7"; source = stack_overflow }

abbrev cut_link : TrackedLink
cut_link = record { id = 5; path = codes "github.com/"; source = git_hub }

-- The text `https://github.com/a/..` is taken for a link of a repository.
cut_link_tracked :
    new_tracked_link ascii
      (λ s. some (record { hostname = codes "github.com"; path = codes "/a/.." }))
      5
      (codes "https://github.com/a/..")
    ≡ ok cut_link
unfolding new_tracked_link check_resource split_path clean_url path_clean trim split keep text_eq
    to_lower trim_space
cut_link_tracked = refl

panics-search_resource_example :
    panics (search_resource w cut_link) ≡ ltb (slashes (codes "github.com/")) 2
panics-search_resource_example = panics-search_resource w cut_link

panics-cut_link : panics (search_resource w cut_link) ≡ true
unfolding search_resource github_crawler split_n
panics-cut_link = refl

abbrev shot : ResourceShot
shot = record {
  id = 9;
  url = codes "https://stackoverflow.com/a/9";
  event_type = codes "so|answer";
  description = codes "try it";
  author = codes "ann";
  chat_ids = [];
  updated_at = time_unix 0;
}

found : stack_overflow_crawler w question ≡ some (ok (shot ∷ []))
unfolding stack_overflow_crawler split_n get_json so_shots build_so_events to_valid_utf8 keep
    path_clean
found = refl

abbrev subscriber : LinkSubscription
subscriber = record { user_id = 7; res_id = 5; link = []; tags = []; last_update = time_unix 0 }

abbrev items : HttpAnswer (List SoAnswer) → List SoAnswer
items (response status (some answers)) = answers
items _ = []

never_edited :
    (req : HttpRequest) (answers : List SoAnswer)
    → w.stack_exchange req ≡ response 200 (some answers)
    → All Unedited answers
never_edited req answers e = subst (All Unedited) (ap items e) (refl, tt)

answers_missed_example : announced (subscriber ∷ []) (shot ∷ []) ≡ []
answers_missed_example =
    answers_missed w question (subscriber ∷ []) (shot ∷ []) (omega arith, tt) never_edited found
