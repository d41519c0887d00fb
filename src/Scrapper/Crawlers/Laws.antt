-- ===== src/Scrapper/Crawlers/Laws.antt =====
-- The crawlers: which links make them panic, and the answers that have no edit date.
use linktracker_eng.Prelude.{
  ℕ, suc, zero, ◌≤◌, min, max, ◌≡◌, refl, ap, sym, ◌∙◌, Bool, Bool-cases, inl, inr, true, false,
  List, [], ◌∷◌, Option, none, some, Text, ltb, ◌==◌, keep, All, length, count_of, split_n,
  cons_head, arith, ok,
}
use linktracker_eng.Scrapper.Link.{TrackedLink, LinkSource, stack_overflow, git_hub}
use linktracker_eng.Scrapper.Tables.{ResourceShot, LinkSubscription}
use linktracker_eng.Scrapper.Crawler.Announced.{announced, receivers}
use linktracker_eng.Scrapper.Crawlers.{
  WebCrawler, HttpRequest, HttpAnswer, no_response, response, SoAnswer, get_json, time_unix,
  so_shots, build_so_events, as_shots, so_request, stack_overflow_crawler, github_crawler,
  search_resource, github_parts, so_parts,
}

length-cons_head : (c : ℕ) (xs : List Text) → length (cons_head c xs) ≡ max 1 (length xs)
length-cons_head c [] = refl
length-cons_head c (x ∷ xs) = omega arith

length-split_n :
    (n sep : ℕ) (s : Text)
    → length (split_n (suc n) sep s) ≡ min (suc n) (suc (count_of (λ c. c == sep) s))
unfolding split_n count_of
length-split_n zero sep s = omega arith
length-split_n (suc n) sep [] = omega arith
length-split_n (suc n) sep (c ∷ s) = grind (
  arith,
  length-split_n n sep s,
  length-split_n (suc n) sep s,
  length-cons_head c (split_n (suc (suc n)) sep s),
)

abbrev pub panics : {A : Type 0} → Option A → Bool
panics none = true
panics (some a) = false

abbrev pub slashes : Text → ℕ
slashes = count_of (λ c. c == b'/')

module _ (w : WebCrawler) where
  github_parts_lem : (ps : List Text) → panics (github_parts w ps) ≡ ltb (length ps) 3
  unfolding get_json
  github_parts_lem [] = refl
  github_parts_lem (a ∷ []) = refl
  github_parts_lem (a ∷ b ∷ []) = refl
  github_parts_lem (a ∷ b ∷ c ∷ ps) = ground arith

  so_parts_lem : (title : Text) (ps : List Text) → panics (so_parts w title ps) ≡ ltb (length ps) 3
  unfolding get_json
  so_parts_lem title [] = refl
  so_parts_lem title (a ∷ []) = refl
  so_parts_lem title (a ∷ b ∷ []) = refl
  so_parts_lem title (a ∷ b ∷ c ∷ ps) = ground arith

  few_parts : (path : Text) → ltb (length (split_n 3 b'/' path)) 3 ≡ ltb (slashes path) 2
  few_parts path = grind (arith, length-split_n 2 b'/' path)

  search_by_source_panic :
      (id : ℕ) (path : Text) (source : LinkSource)
      → let link : TrackedLink = record { id = id; path = path; source = source } in
        panics (search_resource w link) ≡ ltb (slashes path) 2
  unfolding search_resource stack_overflow_crawler github_crawler
  search_by_source_panic id path stack_overflow =
      so_parts_lem path (split_n 3 b'/' path) ∙ few_parts path
  search_by_source_panic id path git_hub = github_parts_lem (split_n 3 b'/' path) ∙ few_parts path

-- The crawl of a link panics just where its stored path has less than two slashes, whatever the service
-- answers; in all other cases it returns shots or an error.
pub panics-search_resource :
    (w : WebCrawler) (link : TrackedLink)
    → panics (search_resource w link) ≡ ltb (slashes link.path) 2
panics-search_resource w link = search_by_source_panic w link.id link.path link.source

-- An answer that has no last_edit_date.
abbrev pub Unedited : SoAnswer → Type 0
Unedited a = a.updated_at ≡ 0

-- Who has got an update of the time 1970-01-01 or later.
abbrev pub HasSeen : LinkSubscription → Type 0
HasSeen s = time_unix 0 ≤ s.last_update

no_receivers :
    (subs : List LinkSubscription) (shot : ResourceShot)
    → All HasSeen subs
    → shot.updated_at ≡ time_unix 0
    → receivers subs shot ≡ []
unfolding keep
no_receivers [] shot seen h = refl
no_receivers (s ∷ subs) shot seen h = ground (arith, seen.0, no_receivers subs shot seen.1 h)

missed_shots :
    (title : Text) (subs : List LinkSubscription) (answers : List SoAnswer)
    → All HasSeen subs
    → All Unedited answers
    → announced subs (so_shots (build_so_events title answers)) ≡ []
unfolding keep so_shots build_so_events
missed_shots title subs [] seen un = refl
missed_shots title subs (a ∷ answers) seen un =
    rw
      (no_receivers subs
        (record {
          id = a.answer_id;
          url = a.link;
          event_type = _;
          description = _;
          author = a.owner_name;
          chat_ids = [];
          updated_at = time_unix a.updated_at;
        })
        seen (ap time_unix un.0))
      (missed_shots title subs answers seen un.1)

module _ (title : Text) (subs : List LinkSubscription) (shots : List ResourceShot)
    (seen : All HasSeen subs) where
  abbrev Unseen : Type 0
  Unseen = announced subs shots ≡ []

  decoded_unedited :
      (answers : List SoAnswer)
      → All Unedited answers
      → so_shots (build_so_events title answers) ≡ shots
      → Unseen
  decoded_unedited answers un e =
      ap (announced subs) (sym e) ∙ missed_shots title subs answers seen un

  answer_unedited :
      (r : HttpAnswer (List SoAnswer))
      → ((answers : List SoAnswer) → r ≡ response 200 (some answers) → All Unedited answers)
      → as_shots (λ answers. so_shots (build_so_events title answers)) (get_json r) ≡ ok shots
      → Unseen
  unfolding get_json
  answer_unedited no_response un e = cc
  answer_unedited (response status none) un e = elim (Bool-cases (status == 401)) [
    | inl a ↦ cc
    | inr a ↦ elim (Bool-cases (status == 200)) [ inl b ↦ cc | inr b ↦ cc ]
  ]
  answer_unedited (response status (some answers)) un e = elim (Bool-cases (status == 401)) [
    | inl a ↦ cc
    | inr a ↦ elim (Bool-cases (status == 200)) [
      | inl b ↦
          let ok_status : status ≡ 200 = ground arith in
          decoded_unedited answers (un answers (ap (λ n. response n (some answers)) ok_status)) cc
      | inr b ↦ cc
    ]
  ]

  parts_unedited :
      (w : WebCrawler) (ps : List Text)
      → ((req : HttpRequest) (answers : List SoAnswer)
          → w.stack_exchange req ≡ response 200 (some answers)
          → All Unedited answers)
      → so_parts w title ps ≡ some (ok shots)
      → Unseen
  unfolding get_json
  parts_unedited w [] un e = cc
  parts_unedited w (a ∷ []) un e = cc
  parts_unedited w (a ∷ b ∷ []) un e = cc
  parts_unedited w (a ∷ b ∷ c ∷ ps) un e =
      answer_unedited (w.stack_exchange (so_request w.escape c)) (un (so_request w.escape c)) cc

-- If the site returns answers without an edit date only, then whatever a crawl of the question finds is
-- announced to nobody who has got an update of 1970 or later before.
pub answers_missed :
    (w : WebCrawler) (link : TrackedLink) (subs : List LinkSubscription) (shots : List ResourceShot)
    → All HasSeen subs
    → ((req : HttpRequest) (answers : List SoAnswer)
        → w.stack_exchange req ≡ response 200 (some answers)
        → All Unedited answers)
    → stack_overflow_crawler w link ≡ some (ok shots)
    → announced subs shots ≡ []
unfolding stack_overflow_crawler
answers_missed w link subs shots seen un e =
    parts_unedited link.path subs shots seen w (split_n 3 b'/' link.path) un e
