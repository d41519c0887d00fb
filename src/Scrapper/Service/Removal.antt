-- ===== src/Scrapper/Service/Removal.antt =====
-- What RemoveClient does on a database without failures.
use linktracker_eng.Prelude.{
  ℕ, ◌≡◌, refl, Bool, true, false, not, [], sentinel, wrap, ok, err, arith, ◌==◌, any_of, keep,
  count_of, List, ◌∷◌,
}
use linktracker_eng.Exec.{◌>>=◌}
use linktracker_eng.Db.{statement, with_transaction}
use linktracker_eng.Scrapper.Errors.{not_found}
use linktracker_eng.Scrapper.Tables.{Tables, SubRow, has_user}
use linktracker_eng.Scrapper.Repo.{some_rows}
use linktracker_eng.Scrapper.Repo.Users
use linktracker_eng.Scrapper.Repo.Subs
use linktracker_eng.Db.Quiet.{quiet}
use linktracker_eng.Scrapper.Service.Quiet.{of_user}
use linktracker_eng.Scrapper.Service.{remove_client}
use linktracker_eng.Scrapper.Service.Bodies.{ensure_client_exists}

count_of-any_of : (p : SubRow → Bool) (xs : List SubRow) → any_of p xs ≡ false → count_of p xs ≡ 0
unfolding any_of count_of
count_of-any_of p [] h = omega arith
count_of-any_of p (x ∷ xs) h = ground (arith, count_of-any_of p xs)

pub count_of-pos :
    (p : SubRow → Bool) (xs : List SubRow) → any_of p xs ≡ true → (count_of p xs == 0) ≡ false
unfolding any_of count_of
count_of-pos p [] h = cc
count_of-pos p (x ∷ xs) h = ground (arith, count_of-pos p xs)

-- A registered client without subscriptions cannot be removed: the call fails with "not found".
pub remove_client_without_subscriptions :
    (client now : ℕ) (t : Tables)
    → has_user client t.users ≡ true
    → any_of (of_user client) t.subs ≡ false
    → (remove_client client (quiet t now)).0
      ≡ err (wrap "remove subscriptions" (sentinel not_found))
unfolding remove_client with_transaction statement ensure_client_exists Users.get_client_by_id
    Subs.remove_subscriptions_by_user_id some_rows ◌>>=◌
remove_client_without_subscriptions client now t u s =
    ground (arith, count_of-any_of (of_user client) t.subs)

any_of-keep-not :
    (p : SubRow → Bool) (xs : List SubRow) → any_of p (keep (λ s. not (p s)) xs) ≡ false
unfolding any_of keep
any_of-keep-not p [] = refl
any_of-keep-not p (x ∷ xs) = ground (arith, any_of-keep-not p xs)

users_counted :
    (id : ℕ) (xs : List ℕ) → has_user id xs ≡ true → (count_of (λ u. u == id) xs == 0) ≡ false
unfolding has_user any_of count_of
users_counted id [] h = cc
users_counted id (x ∷ xs) h = ground (arith, users_counted id xs)

-- A registered client with subscriptions is removed, with all of them and nothing else.
pub remove_client_with_subscriptions :
    (client now : ℕ) (t : Tables)
    → has_user client t.users ≡ true
    → any_of (of_user client) t.subs ≡ true
    → remove_client client (quiet t now) ≡ (
      ok tt,
      quiet
          (record t {
            users = keep (λ u. not (u == client)) t.users;
            subs = keep (λ s. not (of_user client s)) t.subs;
          })
          now,
    )
unfolding remove_client with_transaction statement ensure_client_exists Users.get_client_by_id
    Users.remove_client Subs.remove_subscriptions_by_user_id some_rows ◌>>=◌
remove_client_with_subscriptions client now t u s = ground (
  arith,
  count_of-pos (of_user client) t.subs,
  any_of-keep-not (of_user client) t.subs,
  users_counted client t.users,
)
