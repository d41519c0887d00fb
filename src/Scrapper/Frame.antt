-- ===== src/Scrapper/Frame.antt =====
-- What the operations for one client leave alone: the registration and the subscriptions of another
-- client.
pub mod Repos
pub mod Service
use linktracker_eng.Prelude.{
  ℕ, ◌≡◌, ◌≢◌, refl, Bool, true, false, not, ◌||◌, ◌&&◌, List, [], ◌∷◌, ◌++◌, map, Result, ok, err,
  arith, ◌==◌, any_of, any_of-snoc, keep, ==_iff, if◌then◌else◌,
}
use linktracker_eng.Db.Keeps.{after}
use linktracker_eng.Scrapper.Errors.{Sentinel}
use linktracker_eng.Scrapper.Link.{TrackedLink}
use linktracker_eng.Scrapper.Tables.{Tables, SubRow, LinkSubscription, has_user}
use linktracker_eng.Scrapper.Repo.Users
use linktracker_eng.Scrapper.Repo.Links
use linktracker_eng.Scrapper.Repo.Subs
use linktracker_eng.Scrapper.Service.Quiet.{of_user}

-- What the tables hold of a client.
pub record Mine (k : ℕ) (registered : Bool) (rows : List SubRow) (t : Tables) : Type 0 where
  pub user : has_user k t.users ≡ registered
  pub subs : keep (of_user k) t.subs ≡ rows

keep-keep_other :
    (k : ℕ) (p : SubRow → Bool) (xs : List SubRow)
    → ((s : SubRow) → p s ≡ true → of_user k s ≡ false)
    → keep (of_user k) (keep (λ s. not (p s)) xs) ≡ keep (of_user k) xs
unfolding keep
keep-keep_other k p [] h = refl
keep-keep_other k p (x ∷ xs) h = ground (arith, h x, keep-keep_other k p xs h)

keep-snoc_other :
    (k : ℕ) (xs : List SubRow) (y : SubRow)
    → k ≢ y.user_id
    → keep (of_user k) (xs ++ y ∷ []) ≡ keep (of_user k) xs
unfolding keep
keep-snoc_other k [] y ne = ground arith
keep-snoc_other k (x ∷ xs) y ne = ground (arith, keep-snoc_other k xs y ne)

keep-map_other :
    (k : ℕ) (p : SubRow → Bool) (f : SubRow → SubRow) (xs : List SubRow)
    → ((s : SubRow) → p s ≡ true → of_user k s ≡ false)
    → ((s : SubRow) → (f s).user_id ≡ s.user_id)
    → keep (of_user k) (map (Subs.update_where p f) xs) ≡ keep (of_user k) xs
unfolding keep
keep-map_other k p f [] h g = refl
keep-map_other k p f (x ∷ xs) h g = ground (arith, h x, g x, keep-map_other k p f xs h g)

any_of-keep_user :
    (k id : ℕ) (users : List ℕ)
    → k ≢ id
    → any_of (λ u. u == k) (keep (λ u. not (u == id)) users) ≡ any_of (λ u. u == k) users
unfolding any_of keep
any_of-keep_user k id [] ne = refl
any_of-keep_user k id (u ∷ us) ne = ground (arith, any_of-keep_user k id us ne)

module _ (k : ℕ) (b : Bool) (rows : List SubRow) where
  pub insert_user-Mine :
      (id now : ℕ) (t : Tables)
      → k ≢ id
      → Mine k b rows t
      → Mine k b rows (after (Users.insert_user id now t) t)
  unfolding has_user
  insert_user-Mine id now t ne h = record {
    user = ground (arith, h.user, any_of-snoc (λ u. u == k) t.users id);
    subs = ground (arith, h.subs);
  }

  pub delete_user-Mine :
      (id now : ℕ) (t : Tables)
      → k ≢ id
      → Mine k b rows t
      → Mine k b rows (after (Users.delete_user id now t) t)
  unfolding has_user
  delete_user-Mine id now t ne h = record {
    user = ground (arith, h.user, any_of-keep_user k id t.users ne);
    subs = ground (arith, h.subs);
  }

  pub insert_link-Mine :
      (l : TrackedLink) (now : ℕ) (t : Tables)
      → Mine k b rows t
      → Mine k b rows (after (Links.insert_link l now t) t)
  insert_link-Mine l now t h = record {
    user = ground (arith, h.user);
    subs = ground (arith, h.subs);
  }

  pub insert_sub-Mine :
      (s : LinkSubscription) (now : ℕ) (t : Tables)
      → k ≢ s.user_id
      → Mine k b rows t
      → Mine k b rows (after (Subs.insert_sub s now t) t)
  insert_sub-Mine s now t ne h = record {
    user = ground (arith, h.user);
    subs = ground (arith, h.subs, keep-snoc_other k t.subs (Subs.sub_row s) ne);
  }

  pub delete_subs-Mine :
      (p : SubRow → Bool) (now : ℕ) (t : Tables)
      → ((s : SubRow) → p s ≡ true → of_user k s ≡ false)
      → Mine k b rows t
      → Mine k b rows (after (Subs.delete_subs p now t) t)
  delete_subs-Mine p now t other h = record {
    user = h.user;
    subs = rw (keep-keep_other k p t.subs other) h.subs;
  }

  pub update_subs-Mine :
      (p : SubRow → Bool) (f : SubRow → SubRow) (now : ℕ) (t : Tables)
      → ((s : SubRow) → p s ≡ true → of_user k s ≡ false)
      → ((s : SubRow) → (f s).user_id ≡ s.user_id)
      → Mine k b rows t
      → Mine k b rows (after (Subs.update_subs p f now t) t)
  update_subs-Mine p f now t other same h = record {
    user = h.user;
    subs = rw (keep-map_other k p f t.subs other same) h.subs;
  }
