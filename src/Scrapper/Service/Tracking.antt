-- ===== src/Scrapper/Service/Tracking.antt =====
-- Subscribe, GetLinks and UnSubscribe together, on a database without failures.
use linktracker_eng.Prelude.{
  ℕ, ◌≡◌, Bool, true, false, ◌||◌, ◌&&◌, List, [], ◌∷◌, ◌++◌, Option, none, some, Text, ok, err,
  arith, keep, find_of, text_eq, is_error, Result, Error, Option-cases, Result-cases, inl, inr,
}
use linktracker_eng.Exec.{◌>>=◌}
use linktracker_eng.Db.{Session, statement, with_transaction}
use linktracker_eng.Scrapper.Errors.{Sentinel, not_found, is}
use linktracker_eng.Scrapper.Link.{TrackedLink, new_tracked_link, create_tracked_link}
use linktracker_eng.Scrapper.Tables.{
  Tables, LinkRow, LinkSubscription, new_link_subscription, has_user, has_sub, has_link, has_path,
}
use linktracker_eng.Scrapper.Repo.Users
use linktracker_eng.Scrapper.Repo.Links
use linktracker_eng.Scrapper.Repo.Subs
use linktracker_eng.Scrapper.Repo.Subs.{sub_row, scan_subs}
use linktracker_eng.Db.Quiet.{quiet}
use linktracker_eng.Scrapper.Service.Quiet.{of_user}
use linktracker_eng.Scrapper.Service.{subscribe, get_links}
use linktracker_eng.Scrapper.Service.Bodies.{
  Env, ensure_client_exists, link_by_name, link_or_new, create_link, links_or_empty,
}

-- The subscriptions of a client, as GetLinks returns them.
abbrev pub links_of : ℕ → Tables → List LinkSubscription
links_of client t = scan_subs (keep (of_user client) t.subs)

-- GetLinks of a registered client returns its subscriptions, in the order of the table, and
-- changes nothing.
pub get_links_lem :
    (client now : ℕ) (t : Tables)
    → has_user client t.users ≡ true
    → get_links client (quiet t now) ≡ (ok (links_of client t), quiet t now)
unfolding get_links with_transaction statement ensure_client_exists Users.get_client_by_id
    Subs.get_subscriptions_by_user_id links_or_empty ◌>>=◌
get_links_lem client now t u = ground arith

-- The stored row of a link's name, and the link that a Subscribe works with.
abbrev pub row_of : Env → Text → Tables → Option LinkRow
row_of env link t =
    find_of (λ l. text_eq l.path (Links.normalized_name env.unicode env.parse link)) t.links

abbrev pub link_of_row : Result Sentinel TrackedLink → Option LinkRow → Result Sentinel TrackedLink
link_of_row fresh none = fresh
link_of_row fresh (some row) = Links.row_link row

abbrev pub chosen : Env → ℕ → Text → Tables → Result Sentinel TrackedLink
chosen env new_id link t =
    link_of_row (new_tracked_link env.unicode env.parse new_id link) (row_of env link t)

abbrev pub id_of : Result Sentinel TrackedLink → ℕ
id_of (ok l) = l.id
id_of (err e) = 0

abbrev pub links_with :
    ℕ → Option LinkRow → Result Sentinel TrackedLink → List LinkRow → List LinkRow
links_with now none (ok l) links = links ++ Links.link_row l now ∷ []
links_with now _ _ links = links

abbrev pub subscribed : Env → ℕ → Text → ℕ → ℕ → List Text → Tables → Tables
subscribed env new_id link client now tags t =
    let found = chosen env new_id link t in
    record t {
      links = links_with now (row_of env link t) found t.links;
      subs = t.subs ++ sub_row (new_link_subscription client (id_of found) link tags) ∷ [];
    }

abbrev is_missing : Result Sentinel TrackedLink → Bool
is_missing (ok l) = false
is_missing (err e) = is e not_found

-- A stored row that makes no link is another error than a missing row.
row_link-not_missing : (row : LinkRow) → is_missing (Links.row_link row) ≡ false
unfolding create_tracked_link is is_error
row_link-not_missing row = ground arith

module _ (env : Env) (new_id : ℕ) (link : Text) (client now : ℕ) (tags : List Text)
    (t : Tables) where
  abbrev pub run : Result Sentinel (Unit {0}) × Session Tables
  run = subscribe env new_id link client tags (quiet t now)

  -- What a successful Subscribe knew of the user and the pair, and what it did.
  abbrev pub Subscribed : Type 0
  Subscribed =
      (has_user client t.users ≡ true)
      × (has_sub client (id_of (chosen env new_id link t)) t.subs ≡ false)
      × (run.1 ≡ quiet (subscribed env new_id link client now tags t) now)

  subscribe_ok_new :
      {l : TrackedLink}
      → row_of env link t ≡ none
      → new_tracked_link env.unicode env.parse new_id link ≡ ok l
      → run.0 ≡ ok tt
      → (has_user client t.users ≡ true)
        × ((has_link l.id t.links || has_path l.path t.links) ≡ false)
  unfolding subscribe with_transaction statement ensure_client_exists Users.get_client_by_id
      link_by_name Links.get_link_by_name Links.found_link link_or_new create_link Links.add_link
      Subs.add_subscription new_link_subscription is is_error ◌>>=◌
  subscribe_ok_new {l} e f h = (ground arith, ground arith)

  subscribe_ok_pair :
      {l : TrackedLink}
      → row_of env link t ≡ none
      → new_tracked_link env.unicode env.parse new_id link ≡ ok l
      → run.0 ≡ ok tt
      → (has_sub client l.id t.subs ≡ false)
        × ((has_user client t.users && has_link l.id (t.links ++ Links.link_row l now ∷ [])) ≡ true)
  unfolding subscribe with_transaction statement ensure_client_exists Users.get_client_by_id
      link_by_name Links.get_link_by_name Links.found_link link_or_new create_link Links.add_link
      Subs.add_subscription new_link_subscription is is_error ◌>>=◌
  subscribe_ok_pair {l} e f h = (ground arith, ground arith)

  subscribe_new :
      {l : TrackedLink}
      → row_of env link t ≡ none
      → new_tracked_link env.unicode env.parse new_id link ≡ ok l
      → has_user client t.users ≡ true
      → (has_link l.id t.links || has_path l.path t.links) ≡ false
      → has_sub client l.id t.subs ≡ false
      → (has_user client t.users && has_link l.id (t.links ++ Links.link_row l now ∷ [])) ≡ true
      → run.1
        ≡ quiet
            (record t {
              links = t.links ++ Links.link_row l now ∷ [];
              subs = t.subs ++ sub_row (new_link_subscription client l.id link tags) ∷ [];
            })
            now
  unfolding subscribe with_transaction statement ensure_client_exists Users.get_client_by_id
      link_by_name Links.get_link_by_name Links.found_link link_or_new create_link Links.add_link
      Subs.add_subscription new_link_subscription is is_error ◌>>=◌
  subscribe_new {l} e f u c s k = ground arith

  subscribe_invalid :
      {x : Error Sentinel}
      → row_of env link t ≡ none
      → new_tracked_link env.unicode env.parse new_id link ≡ err x
      → ¬ (run.0 ≡ ok tt)
  unfolding subscribe with_transaction statement ensure_client_exists Users.get_client_by_id
      link_by_name Links.get_link_by_name Links.found_link link_or_new create_link Links.add_link
      Subs.add_subscription new_link_subscription is is_error ◌>>=◌
  subscribe_invalid {x} e f h = ground arith

  subscribe_spoilt :
      {x : Error Sentinel} (row : LinkRow)
      → row_of env link t ≡ some row
      → Links.row_link row ≡ err x
      → ¬ (run.0 ≡ ok tt)
  unfolding subscribe with_transaction statement ensure_client_exists Users.get_client_by_id
      link_by_name Links.get_link_by_name Links.found_link link_or_new ◌>>=◌
  subscribe_spoilt row e f h = ground (arith, row_link-not_missing row)

  subscribe_known : (row : LinkRow) → row_of env link t ≡ some row → run.0 ≡ ok tt → Subscribed
  unfolding subscribe with_transaction statement ensure_client_exists Users.get_client_by_id
      link_by_name Links.get_link_by_name Links.found_link link_or_new create_link Links.add_link
      Subs.add_subscription new_link_subscription is is_error ◌>>=◌
  subscribe_known row e h = ground (arith, row_link-not_missing row)

  pub subscribe_ok : run.0 ≡ ok tt → Subscribed
  unfolding new_link_subscription
  subscribe_ok h = elim (Option-cases (row_of env link t)) [
    | inr (row, e) ↦ subscribe_known row e h
    | inl e ↦ elim (Result-cases (new_tracked_link env.unicode env.parse new_id link)) [
      | inr (x, f) ↦ absurd (subscribe_invalid e f h)
      | inl (l, f) ↦
          (let known = subscribe_ok_new e f h in
            let pair = subscribe_ok_pair e f h in
            rw (e, f) (known.0, pair.0, subscribe_new e f known.0 known.1 pair.0 pair.1))
    ]
  ]

  -- A successful Subscribe has found or made a link.
  pub subscribe_chosen : run.0 ≡ ok tt → (l : TrackedLink) × (chosen env new_id link t ≡ ok l)
  subscribe_chosen h = elim (Option-cases (row_of env link t)) [
    | inr (row, e) ↦ elim (Result-cases (Links.row_link row)) [
      | inl (l, f) ↦ (l, rw e f)
      | inr (x, f) ↦ absurd (subscribe_spoilt row e f h)
    ]
    | inl e ↦ elim (Result-cases (new_tracked_link env.unicode env.parse new_id link)) [
      | inl (l, f) ↦ (l, rw e f)
      | inr (x, f) ↦ absurd (subscribe_invalid e f h)
    ]
  ]
