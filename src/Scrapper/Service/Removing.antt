-- ===== src/Scrapper/Service/Removing.antt =====
-- Steps of UnSubscribe on a database without failures, and what its DELETE finds.
use linktracker_eng.Prelude.{
  ℕ, ◌≡◌, ◌≢◌, refl, ◌∙◌, Bool, true, false, not, ◌&&◌, List, [], ◌∷◌, ◌++◌, none, some, Text, ok,
  err, arith, sentinel, is_error, ◌==◌, any_of, keep, count_of, find_of, text_eq, text_eq_refl,
  text_eq_iff, Error,
}
use mathlib.Core.List.{append-nil}
use linktracker_eng.Exec.{◌>>=◌}
use linktracker_eng.Exec.Steps.{bind_ok, or_return_ok, or_return_err}
use linktracker_eng.Db.{Session, statement}
use linktracker_eng.Db.Laws.{tables-with_transaction_err}
use linktracker_eng.Db.Quiet.{quiet, live, with_transaction_ok, with_transaction_err}
use linktracker_eng.Scrapper.Errors.{Sentinel, is, not_found, link_not_found}
use linktracker_eng.Scrapper.Link.{
  TrackedLink, LinkSource, git_hub, stack_overflow, new_tracked_link, create_tracked_link,
  source_text,
}
use linktracker_eng.Scrapper.Tables.{
  Tables, SubRow, LinkRow, new_link_subscription, has_user, has_sub, is_sub,
}
use linktracker_eng.Scrapper.Repo.{some_rows}
use linktracker_eng.Scrapper.Repo.Users
use linktracker_eng.Scrapper.Repo.Links
use linktracker_eng.Scrapper.Repo.Subs
use linktracker_eng.Scrapper.Repo.Subs.{sub_row, scan_subs}
use linktracker_eng.Scrapper.Service.{unsubscribe}
use linktracker_eng.Scrapper.Service.RoundTrip.{keep-snoc}
use linktracker_eng.Scrapper.Service.Bodies.{Env, ensure_client_exists, link_by_name}
use linktracker_eng.Scrapper.Service.Tracking.{row_of}

pub keep_none :
    (p : SubRow → Bool) (xs : List SubRow) → any_of p xs ≡ false → keep (λ s. not (p s)) xs ≡ xs
unfolding keep any_of
keep_none p [] h = refl
keep_none p (x ∷ xs) h = ground (arith, keep_none p xs)

pub count_of-snoc :
    (p : SubRow → Bool) (xs : List SubRow) (y : SubRow)
    → p y ≡ true
    → (count_of p (xs ++ y ∷ []) == 0) ≡ false
unfolding count_of
count_of-snoc p [] y h = ground arith
count_of-snoc p (x ∷ xs) y h = ground (arith, count_of-snoc p xs y)

pub find_of-snoc :
    (p : LinkRow → Bool) (xs : List LinkRow) (y : LinkRow)
    → p y ≡ true
    → find_of p xs ≡ none
    → find_of p (xs ++ y ∷ []) ≡ some y
unfolding find_of
find_of-snoc p [] y h e = ground arith
find_of-snoc p (x ∷ xs) y h e = ground (arith, find_of-snoc p xs y)

-- A stored link is read back as it was.
pub row_link-link_row : (l : TrackedLink) (now : ℕ) → Links.row_link (Links.link_row l now) ≡ ok l
unfolding create_tracked_link source_text text_eq
row_link-link_row l now = by_source l.source refl
  where
    by_source : (s : LinkSource) → l.source ≡ s → Links.row_link (Links.link_row l now) ≡ ok l
    by_source git_hub e = rw e (cc)
    by_source stack_overflow e = rw e (cc)

-- A link just made is looked up by its path.
pub normalized_name_new :
    (env : Env) (new_id : ℕ) (link : Text) (l : TrackedLink)
    → new_tracked_link env.unicode env.parse new_id link ≡ ok l
    → Links.normalized_name env.unicode env.parse link ≡ l.path
unfolding Links.normalized_name new_tracked_link
normalized_name_new env new_id link l h = ground arith

-- What UnSubscribe deletes: the pair, under the very text of the link.
abbrev pub is_named : ℕ → ℕ → Text → SubRow → Bool
is_named client res link s = is_sub client res s && text_eq s.link link

module _ (env : Env) (link : Text) (client now : ℕ) (t : Tables) (row : LinkRow)
    (l : TrackedLink) where
  client_known :
      has_user client t.users ≡ true
      → ensure_client_exists client (live t now) ≡ (ok tt, live t now)
  unfolding ensure_client_exists Users.get_client_by_id statement ◌>>=◌
  client_known u = ground arith

  link_known :
      row_of env link t ≡ some row
      → Links.row_link row ≡ ok l
      → link_by_name env link (live t now) ≡ (ok l, live t now)
  unfolding link_by_name Links.get_link_by_name Links.found_link statement ◌>>=◌
  link_known e f = ground arith

  subscription_removed :
      (count_of (is_named client l.id link) t.subs == 0) ≡ false
      → Subs.remove_subscription (new_link_subscription client l.id link []) (live t now) ≡ (
        ok tt,
        live (record t { subs = keep (λ s. not (is_named client l.id link s)) t.subs }) now,
      )
  unfolding Subs.remove_subscription new_link_subscription some_rows statement ◌>>=◌
  subscription_removed c = rw c

  subscription_missing :
      count_of (is_named client l.id link) t.subs ≡ 0
      → Subs.remove_subscription (new_link_subscription client l.id link []) (live t now) ≡ (
        err (sentinel not_found),
        live (record t { subs = keep (λ s. not (is_named client l.id link s)) t.subs }) now,
      )
  unfolding Subs.remove_subscription new_link_subscription some_rows statement ◌>>=◌
  subscription_missing c = rw c

  module _ (u : has_user client t.users ≡ true) (e : row_of env link t ≡ some row)
      (f : Links.row_link row ≡ ok l) where
    pub unsubscribe_found :
        (count_of (is_named client l.id link) t.subs == 0) ≡ false
        → unsubscribe env client link (quiet t now) ≡ (
          ok tt,
          quiet (record t { subs = keep (λ s. not (is_named client l.id link s)) t.subs }) now,
        )
    unfolding unsubscribe
    unsubscribe_found c = with_transaction_ok _ (
        bind_ok _ _ (client_known u)
        ∙ bind_ok _ _ (or_return_ok _ _ (link_known e f))
        ∙ or_return_ok _ _ (subscription_removed c))

    pub unsubscribe_missing :
        count_of (is_named client l.id link) t.subs ≡ 0
        → (unsubscribe env client link (quiet t now)).0 ≡ err (sentinel link_not_found)
    unfolding unsubscribe is is_error
    unsubscribe_missing c = with_transaction_err _ (
        bind_ok _ _ (client_known u)
        ∙ bind_ok _ _ (or_return_ok _ _ (link_known e f))
        ∙ or_return_err _ _ (subscription_missing c))

pub is_named_self :
    (client id : ℕ) (link : Text) (tags : List Text)
    → is_named client id link (sub_row (new_link_subscription client id link tags)) ≡ true
unfolding new_link_subscription
is_named_self client id link tags = ground (arith, text_eq_refl link)

pub is_named-has_sub :
    (client id : ℕ) (link : Text) (subs : List SubRow)
    → has_sub client id subs ≡ false
    → any_of (is_named client id link) subs ≡ false
unfolding has_sub any_of
is_named-has_sub client id link [] h = refl
is_named-has_sub client id link (s ∷ ss) h = ground (arith, is_named-has_sub client id link ss)

pub keep_last :
    (p : SubRow → Bool) (xs : List SubRow) (y : SubRow)
    → any_of p xs ≡ false
    → p y ≡ true
    → keep (λ s. not (p s)) (xs ++ y ∷ []) ≡ xs
keep_last p xs y none_before last =
    rw (keep-snoc (λ s. not (p s)) xs y, last, keep_none p xs none_before, append-nil)

pub count_of-snoc_none :
    (p : SubRow → Bool) (xs : List SubRow) (y : SubRow)
    → any_of p xs ≡ false
    → p y ≡ false
    → count_of p (xs ++ y ∷ []) ≡ 0
unfolding count_of any_of
count_of-snoc_none p [] y h e = ground arith
count_of-snoc_none p (x ∷ xs) y h e = ground (arith, count_of-snoc_none p xs y)

pub is_named_other :
    (client id : ℕ) (link other : Text) (tags : List Text)
    → other ≢ link
    → is_named client id other (sub_row (new_link_subscription client id link tags)) ≡ false
unfolding new_link_subscription
is_named_other client id link other tags ne = ground (arith, text_eq_iff link other)

pub unsubscribe_failed :
    (env : Env) (link : Text) (client : ℕ) (s : Session Tables) {e : Error Sentinel}
    → (unsubscribe env client link s).0 ≡ err e
    → (unsubscribe env client link s).1.tables ≡ s.tables
unfolding unsubscribe
unsubscribe_failed env link client s h = tables-with_transaction_err _ s h
