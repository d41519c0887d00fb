-- ===== src/Scrapper/Invariant/Statements.antt =====
-- Each statement of the repositories keeps the tables well formed.
use linktracker_eng.Prelude.{
  ℕ, ◌≡◌, Bool, true, false, not, ◌&&◌, ◌||◌, List, [], ◌∷◌, arith, ◌==◌, All, any_of, any_of-snoc,
  keep, Distinct-snoc, Distinct-keep, Distinct-map, All-append, All-keep, All-imp, All-map,
  Bool-cases, inl, inr,
}
use linktracker_eng.Db.Keeps.{after}
use linktracker_eng.Scrapper.Link.{TrackedLink}
use linktracker_eng.Scrapper.Tables.{
  Tables, SubRow, LinkSubscription, has_user, has_link, has_path, has_sub,
}
use linktracker_eng.Scrapper.Repo.Users.{insert_user, delete_user}
use linktracker_eng.Scrapper.Repo.Links.{link_row, insert_link, delete_link}
use linktracker_eng.Scrapper.Repo.Subs.{insert_sub, delete_subs, update_subs, update_where}
use linktracker_eng.Scrapper.Invariant.{IsWellFormed, same_user, same_id, same_path, same_sub}

pub insert_user-IsWellFormed :
    (id now : ℕ) (t : Tables) → IsWellFormed t → IsWellFormed (after (insert_user id now t) t)
unfolding has_user has_link
insert_user-IsWellFormed id now t h = elim (Bool-cases (has_user id t.users)) [
  | inl e ↦ rw e h
  | inr e ↦ rw e (record {
    users_distinct = Distinct-snoc same_user t.users id h.users_distinct e;
    ids_distinct = h.ids_distinct;
    paths_distinct = h.paths_distinct;
    subs_distinct = h.subs_distinct;
    subs_refer =
        All-imp _ _ t.subs
          (λ s r. (ground (arith, any_of-snoc (λ u. u == s.user_id) t.users id), r.1)) h.subs_refer;
  })
]

-- A user or a link that is kept beside a deleted one is still there.
any_of-keep_ne :
    {A : Type 0} (key : A → ℕ) (v id : ℕ) (xs : List A)
    → (v == id) ≡ false
    → any_of (λ x. key x == v) xs ≡ true
    → any_of (λ x. key x == v) (keep (λ x. not (key x == id)) xs) ≡ true
unfolding any_of keep
any_of-keep_ne key v id [] ne h = cc
any_of-keep_ne key v id (x ∷ xs) ne h = ground (arith, any_of-keep_ne key v id xs ne)

-- A value that is in use by a row is not the deleted one, if the deleted one is not in use.
used_ne :
    {A : Type 0} (key : A → ℕ) (id : ℕ) (s : A) (ss : List A)
    → any_of (λ x. key x == id) (s ∷ ss) ≡ false
    → ((key s == id) ≡ false) × (any_of (λ x. key x == id) ss ≡ false)
unfolding any_of
used_ne key id s ss h = ground arith

absent_ne :
    {A : Type 0} (key : A → ℕ) (v id : ℕ) (xs : List A)
    → any_of (λ x. key x == v) xs ≡ true
    → any_of (λ x. key x == id) xs ≡ false
    → (v == id) ≡ false
unfolding any_of
absent_ne key v id [] h k = cc
absent_ne key v id (x ∷ xs) h k = ground (arith, absent_ne key v id xs)

-- After a delete that the foreign key allows, every row still refers to something.
refs-keep :
    {A B : Type 0} (key : A → ℕ) (ref : B → ℕ) (id : ℕ) (xs : List A) (ys : List B)
    → (any_of (λ x. key x == id) xs && any_of (λ y. ref y == id) ys) ≡ false
    → All (λ y. any_of (λ x. key x == ref y) xs ≡ true) ys
    → All (λ y. any_of (λ x. key x == ref y) (keep (λ x. not (key x == id)) xs) ≡ true) ys
refs-keep key ref id xs [] g h = tt
refs-keep key ref id xs (y ∷ ys) g h = elim (Bool-cases (any_of (λ x. key x == id) xs)) [
  | inl e ↦
      (let used = used_ne ref id y ys (ground arith) in
        (
          any_of-keep_ne key (ref y) id xs used.0 h.0,
          refs-keep key ref id xs ys (ground arith) h.1,
        ))
  | inr e ↦ (
    any_of-keep_ne key (ref y) id xs (absent_ne key (ref y) id xs h.0 e) h.0,
    refs-keep key ref id xs ys (ground arith) h.1,
  )
]

All-zip :
    {A : Type 0} (P Q : A → Type 0) (xs : List A) → All P xs → All Q xs → All (λ x. P x × Q x) xs
All-zip P Q [] p q = tt
All-zip P Q (x ∷ xs) p q = ((p.0, q.0), All-zip P Q xs p.1 q.1)

pub delete_user-IsWellFormed :
    (id now : ℕ) (t : Tables) → IsWellFormed t → IsWellFormed (after (delete_user id now t) t)
unfolding has_user has_link
delete_user-IsWellFormed id now t h =
    elim (Bool-cases (has_user id t.users && any_of (λ s. s.user_id == id) t.subs)) [
      | inl e ↦ rw e h
      | inr e ↦ rw e (record {
        users_distinct = Distinct-keep same_user _ t.users h.users_distinct;
        ids_distinct = h.ids_distinct;
        paths_distinct = h.paths_distinct;
        subs_distinct = h.subs_distinct;
        subs_refer =
            All-zip _ _ t.subs
              (refs-keep (λ u. u) (λ s. s.user_id) id t.users t.subs e
                (All-imp _ _ t.subs (λ s r. r.0) h.subs_refer))
              (All-imp _ _ t.subs (λ s r. r.1) h.subs_refer);
      })
    ]

pub insert_link-IsWellFormed :
    (l : TrackedLink) (now : ℕ) (t : Tables)
    → IsWellFormed t
    → IsWellFormed (after (insert_link l now t) t)
unfolding has_user has_link has_path
insert_link-IsWellFormed l now t h =
    elim (Bool-cases (has_link l.id t.links || has_path l.path t.links)) [
      | inl e ↦ rw e h
      | inr e ↦ rw e (record {
        users_distinct = h.users_distinct;
        ids_distinct = Distinct-snoc same_id t.links _ h.ids_distinct (ground arith);
        paths_distinct = Distinct-snoc same_path t.links _ h.paths_distinct (ground arith);
        subs_distinct = h.subs_distinct;
        subs_refer =
            All-imp _ _ t.subs
              (λ s r. (
                r.0,
                ground (arith, any_of-snoc (λ k. k.link_id == s.res_id) t.links (link_row l now)),
              ))
              h.subs_refer;
      })
    ]

pub delete_link-IsWellFormed :
    (id now : ℕ) (t : Tables) → IsWellFormed t → IsWellFormed (after (delete_link id now t) t)
unfolding has_user has_link
delete_link-IsWellFormed id now t h =
    elim (Bool-cases (has_link id t.links && any_of (λ s. s.res_id == id) t.subs)) [
      | inl e ↦ rw e h
      | inr e ↦ rw e (record {
        users_distinct = h.users_distinct;
        ids_distinct = Distinct-keep same_id _ t.links h.ids_distinct;
        paths_distinct = Distinct-keep same_path _ t.links h.paths_distinct;
        subs_distinct = h.subs_distinct;
        subs_refer = All-zip _ _ t.subs (All-imp _ _ t.subs (λ s r. r.0) h.subs_refer) (
            refs-keep (λ k. k.link_id) (λ s. s.res_id) id t.links t.subs e
              (All-imp _ _ t.subs (λ s r. r.1) h.subs_refer));
      })
    ]

pub insert_sub-IsWellFormed :
    (s : LinkSubscription) (now : ℕ) (t : Tables)
    → IsWellFormed t
    → IsWellFormed (after (insert_sub s now t) t)
unfolding has_sub
insert_sub-IsWellFormed s now t h = elim (Bool-cases (has_sub s.user_id s.res_id t.subs)) [
  | inl e ↦ rw e h
  | inr e ↦ elim (Bool-cases (has_user s.user_id t.users && has_link s.res_id t.links)) [
    | inl f ↦
        rw (e, f)
          (record {
            users_distinct = h.users_distinct;
            ids_distinct = h.ids_distinct;
            paths_distinct = h.paths_distinct;
            subs_distinct = Distinct-snoc same_sub t.subs _ h.subs_distinct e;
            subs_refer = All-append _ t.subs _ h.subs_refer ((ground arith, ground arith), tt);
          })
    | inr f ↦ rw (e, f) h
  ]
]

pub delete_subs-IsWellFormed :
    (p : SubRow → Bool) (now : ℕ) (t : Tables)
    → IsWellFormed t
    → IsWellFormed (after (delete_subs p now t) t)
delete_subs-IsWellFormed p now t h = record {
  users_distinct = h.users_distinct;
  ids_distinct = h.ids_distinct;
  paths_distinct = h.paths_distinct;
  subs_distinct = Distinct-keep same_sub _ t.subs h.subs_distinct;
  subs_refer = All-keep _ _ t.subs h.subs_refer;
}

-- An update that leaves the two ids alone.
pub update_subs-IsWellFormed :
    (p : SubRow → Bool) (f : SubRow → SubRow) (now : ℕ) (t : Tables)
    → ((s : SubRow) → ((f s).user_id ≡ s.user_id) × ((f s).res_id ≡ s.res_id))
    → IsWellFormed t
    → IsWellFormed (after (update_subs p f now t) t)
update_subs-IsWellFormed p f now t ids h = record {
  users_distinct = h.users_distinct;
  ids_distinct = h.ids_distinct;
  paths_distinct = h.paths_distinct;
  subs_distinct =
      Distinct-map same_sub (update_where p f) t.subs (λ a b. ground (arith, ids a, ids b))
        h.subs_distinct;
  subs_refer =
      All-map _ (update_where p f) t.subs
        (λ s r. elim (Bool-cases (p s)) [ inl e ↦ rw (e, (ids s).0, (ids s).1) r | inr e ↦ rw e r ])
        h.subs_refer;
}
