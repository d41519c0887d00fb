-- ===== src/Scrapper/Service/Undo.antt =====
-- UnSubscribe after a Subscribe, on a database without failures.
use linktracker_eng.Prelude.{
  ℕ, ◌≡◌, ◌≢◌, refl, List, some, Text, ok, err, sentinel, text_eq_refl, Option-cases, inl, inr,
}
use linktracker_eng.Db.Quiet.{quiet}
use linktracker_eng.Scrapper.Errors.{link_not_found}
use linktracker_eng.Scrapper.Link.{TrackedLink}
use linktracker_eng.Scrapper.Tables.{Tables, LinkRow}
use linktracker_eng.Scrapper.Repo.Links
use linktracker_eng.Scrapper.Service.{subscribe, unsubscribe}
use linktracker_eng.Scrapper.Service.Bodies.{Env}
use linktracker_eng.Scrapper.Service.Tracking.{
  row_of, chosen, subscribed, subscribe_ok, subscribe_chosen,
}
use linktracker_eng.Scrapper.Service.Removing.{
  count_of-snoc, find_of-snoc, row_link-link_row, normalized_name_new, unsubscribe_found,
  unsubscribe_missing, is_named_self, is_named-has_sub, keep_last, count_of-snoc_none,
  is_named_other, unsubscribe_failed,
}

-- The row that a name finds after its Subscribe, and the link that it makes.
row_subscribed :
    (env : Env) (new_id : ℕ) (link : Text) (client now : ℕ) (tags : List Text) (t : Tables)
    → (subscribe env new_id link client tags (quiet t now)).0 ≡ ok tt
    → (row : LinkRow) × (l : TrackedLink) × (row_of env link
          (subscribed env new_id link client now tags t)
        ≡ some row)
      × (Links.row_link row ≡ ok l)
      × (chosen env new_id link t ≡ ok l)
row_subscribed env new_id link client now tags t h =
    let (l, c) = subscribe_chosen env new_id link client now tags t h in
    elim (Option-cases (row_of env link t)) [
      | inr (row, e) ↦ (row, l, rw (e, e), rw e at c, c)
      | inl e ↦
          (let name = normalized_name_new env new_id link l (rw e at c) in
            (
              Links.link_row l now,
              l,
              rw (c, e)
                  (find_of-snoc _ t.links (Links.link_row l now) (rw name (text_eq_refl l.path)) e),
              row_link-link_row l now,
              c,
            ))
    ]

-- UnSubscribe with the text that Subscribe was given succeeds, and leaves the subscriptions as they
-- were before the Subscribe.
pub unsubscribe-subscribe :
    (env : Env) (new_id : ℕ) (link : Text) (client now : ℕ) (tags : List Text) (t : Tables)
    → (subscribe env new_id link client tags (quiet t now)).0 ≡ ok tt
    → let s = (subscribe env new_id link client tags (quiet t now)).1 in
      ((unsubscribe env client link s).0 ≡ ok tt)
      × ((unsubscribe env client link s).1.tables.subs ≡ t.subs)
unsubscribe-subscribe env new_id link client now tags t h =
    let (u, fresh, done) = subscribe_ok env new_id link client now tags t h in
    let (row, l, e, f, c) = row_subscribed env new_id link client now tags t h in
    let after = subscribed env new_id link client now tags t in
    let undone =
      unsubscribe_found env link client now after row l u e f
        (rw c (count_of-snoc _ t.subs _ (is_named_self client l.id link tags))) in
    rw (done, undone)
      (
        refl,
        rw c (
            keep_last _ t.subs _ (is_named-has_sub client l.id link t.subs (rw c at fresh))
              (is_named_self client l.id link tags)),
      )

-- UnSubscribe with another text for the same link fails with "link not found", and the subscription
-- stays.
pub unsubscribe_other_text :
    (env : Env) (new_id : ℕ) (link other : Text) (client now : ℕ) (tags : List Text) (t : Tables)
    → (subscribe env new_id link client tags (quiet t now)).0 ≡ ok tt
    → Links.normalized_name env.unicode env.parse other
      ≡ Links.normalized_name env.unicode env.parse link
    → other ≢ link
    → let s = (subscribe env new_id link client tags (quiet t now)).1 in
      ((unsubscribe env client other s).0 ≡ err (sentinel link_not_found))
      × ((unsubscribe env client other s).1.tables ≡ s.tables)
unsubscribe_other_text env new_id link other client now tags t h same ne =
    let (u, fresh, done) = subscribe_ok env new_id link client now tags t h in
    let (row, l, e, f, c) = row_subscribed env new_id link client now tags t h in
    let after = subscribed env new_id link client now tags t in
    let failed = unsubscribe_missing env other client now after row l u (rw same e) f (
      rw c (
        count_of-snoc_none _ t.subs _ (is_named-has_sub client l.id other t.subs (rw c at fresh))
          (is_named_other client l.id link other tags ne))) in
    rw done (failed, unsubscribe_failed env other client (quiet after now) failed)
