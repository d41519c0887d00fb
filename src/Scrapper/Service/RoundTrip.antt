-- ===== src/Scrapper/Service/RoundTrip.antt =====
-- GetLinks and UnSubscribe after a Subscribe, on a database without failures.
use linktracker_eng.Prelude.{
  ℕ, ◌≡◌, refl, ap, Bool, true, List, [], ◌∷◌, ◌++◌, Text, ok, arith, ◌==◌, keep, if◌then◌else◌,
  Option-cases, inl, inr,
}
use linktracker_eng.Scrapper.Tables.{
  Tables, SubRow, new_link_subscription, set_last_update, has_user,
}
use linktracker_eng.Scrapper.Repo.Subs.{sub_row, scan_subs}
use linktracker_eng.Db.Quiet.{quiet}
use linktracker_eng.Scrapper.Service.Quiet.{of_user}
use linktracker_eng.Scrapper.Service.{subscribe, get_links}
use linktracker_eng.Scrapper.Service.Bodies.{Env}
use linktracker_eng.Scrapper.Service.Tracking.{
  links_of, get_links_lem, chosen, id_of, subscribed, subscribe_ok,
}

scan_subs-append : (xs ys : List SubRow) → scan_subs (xs ++ ys) ≡ scan_subs xs ++ scan_subs ys
unfolding scan_subs
scan_subs-append [] ys = refl
scan_subs-append (x ∷ xs) ys = elim (Option-cases x.last_update) [
  | inl e ↦ rw e (scan_subs-append xs ys)
  | inr (t, e) ↦ rw e (cc (scan_subs-append xs ys))
]

pub keep-snoc :
    (p : SubRow → Bool) (xs : List SubRow) (y : SubRow)
    → keep p (xs ++ y ∷ []) ≡ keep p xs ++ (if p y then y ∷ [] else [])
unfolding keep
keep-snoc p [] y = ground arith
keep-snoc p (x ∷ xs) y = ground (arith, keep-snoc p xs y)

scan_new :
    (client res user : ℕ) (link : Text) (tags : List Text)
    → let sub = new_link_subscription client res link tags in
      scan_subs (if of_user user (sub_row sub) then sub_row sub ∷ [] else [])
      ≡ (if client == user then sub ∷ [] else [])
unfolding scan_subs new_link_subscription set_last_update
scan_new client res user link tags = ground arith

-- After a successful Subscribe of a link by a client, GetLinks of any registered user returns what
-- it returned before, and behind it the new subscription if the user is that client: the link as
-- it was written, with the tags that were given.
pub get_links-subscribe :
    (env : Env) (new_id : ℕ) (link : Text) (client now : ℕ) (tags : List Text) (t : Tables)
    (user : ℕ)
    → (subscribe env new_id link client tags (quiet t now)).0 ≡ ok tt
    → has_user user t.users ≡ true
    → (get_links user (subscribe env new_id link client tags (quiet t now)).1).0
      ≡ ok (
          links_of user t
          ++ (if client == user
              then new_link_subscription client (id_of (chosen env new_id link t)) link tags ∷ []
              else []))
get_links-subscribe env new_id link client now tags t user h u =
    let (known, fresh, done) = subscribe_ok env new_id link client now tags t h in
    rw
      (
        done,
        get_links_lem user now (subscribed env new_id link client now tags t) u,
        keep-snoc,
        scan_subs-append,
      )
      (ap (λ r. ok (links_of user t ++ r))
        (scan_new client (id_of (chosen env new_id link t)) user link tags))
