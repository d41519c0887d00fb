-- ===== src/Scrapper/Tests.antt =====
-- The theorems about the subscriptions on concrete tables.
use linktracker_eng.Prelude.{
  ◌≡◌, ◌≢◌, refl, true, false, [], ◌∷◌, ◌++◌, none, some, Text, codes, Unicode, ascii_lower, leb,
  ◌&&◌, ok, err, sentinel, wrap, keep, not, ◌==◌, text_eq, any_of, path_clean, trim, split, find_of,
  is_error, if◌then◌else◌, ap, length, arith,
}
use linktracker_eng.Db.{statement, with_transaction}
use linktracker_eng.Db.Quiet.{quiet}
use linktracker_eng.Exec.{◌>>=◌}
use linktracker_eng.Scrapper.Errors.{is, not_found, link_not_found}
use linktracker_eng.Scrapper.Link.{new_tracked_link, check_resource, split_path, clean_url}
use linktracker_eng.Scrapper.Tables.{
  Tables, empty_tables, new_link_subscription, has_user, has_link, has_path, has_sub,
}
use linktracker_eng.Scrapper.Repo.Links
use linktracker_eng.Scrapper.Repo.Users
use linktracker_eng.Scrapper.Repo.Subs
use linktracker_eng.Scrapper.Service.Bodies.{Env}
use linktracker_eng.Scrapper.Service.{subscribe, unsubscribe, get_links, remove_client}
use linktracker_eng.Scrapper.Service.Quiet.{of_user}
use linktracker_eng.Scrapper.Service.Removal.{
  remove_client_without_subscriptions, remove_client_with_subscriptions,
}
use linktracker_eng.Scrapper.Service.Tracking.{links_of, chosen, id_of}
use linktracker_eng.Scrapper.Service.RoundTrip.{get_links-subscribe}
use linktracker_eng.Scrapper.Service.Undo.{unsubscribe-subscribe, unsubscribe_other_text}
use linktracker_eng.Scrapper.Invariant.{IsWellFormed, IsWellFormed-empty_tables}
use linktracker_eng.Scrapper.Requests.{Request, serve, serve_all}
use linktracker_eng.Scrapper.Requests.Laws.{serve_all-IsWellFormed, serve_error-tables}

abbrev pub ascii : Unicode
ascii = record {
  lower = ascii_lower;
  is_letter = λ c. leb b'a' c && leb c b'z';
  is_digit = λ c. leb b'0' c && leb c b'9';
  lower_ascii = λ c h. refl;
}

-- Every text is read as the URL of one repository.
abbrev pub env : Env
env = record {
  unicode = ascii;
  parse = λ s. some (record { hostname = codes "github.com"; path = codes "/a/b" });
  collate = λ a b. true;
}

abbrev pub link : Text
link = codes "https://github.com/a/b"

abbrev other_link : Text
other_link = codes "https://github.com/a/b/"

abbrev one_user : Tables
one_user = record empty_tables { users = 7 ∷ [] }

abbrev pub one_sub : Tables
one_sub = record one_user {
  links =
      record {
        link_id = 5;
        path = codes "github.com/a/b";
        resource_type = codes "github";
        created_at = 0;
      }
      ∷ [];
  subs = record { user_id = 7; res_id = 5; link = link; tags = []; last_update = none } ∷ [];
}

serve_all-IsWellFormed_example :
    IsWellFormed
      (serve_all env
        (Request.add_client 7 ∷ Request.subscribe 5 link 7 [] ∷ [])
        (quiet empty_tables 1)).tables
serve_all-IsWellFormed_example =
    serve_all-IsWellFormed env (Request.add_client 7 ∷ Request.subscribe 5 link 7 [] ∷ [])
      (quiet empty_tables 1) IsWellFormed-empty_tables

-- What the runs of the witnesses return.
subscribe_run : (subscribe env 5 link 7 (codes "go" ∷ []) (quiet one_user 1)).0 ≡ ok tt
unfolding subscribe with_transaction statement ◌>>=◌ Users.get_client_by_id Links.get_link_by_name
    Links.found_link Links.normalized_name Links.add_link Subs.add_subscription
    new_link_subscription new_tracked_link check_resource split_path clean_url path_clean trim split
    text_eq find_of any_of is is_error has_user has_link has_path has_sub
subscribe_run = refl

unsubscribe_run :
    (serve env (Request.unsubscribe 7 link) (quiet one_user 1)).0 ≡ err (sentinel link_not_found)
unfolding serve unsubscribe with_transaction statement ◌>>=◌ Users.get_client_by_id
    Links.get_link_by_name Links.found_link Links.normalized_name text_eq find_of any_of is is_error
    has_user
unsubscribe_run = refl

pub registered : has_user 7 (7 ∷ []) ≡ true
unfolding has_user
registered = refl

serve_error-tables_example :
    (serve env (Request.unsubscribe 7 link) (quiet one_user 1)).1.tables ≡ one_user
serve_error-tables_example =
    serve_error-tables env (Request.unsubscribe 7 link) (quiet one_user 1) unsubscribe_run

get_links-subscribe_example :
    (get_links 7 (subscribe env 5 link 7 (codes "go" ∷ []) (quiet one_user 1)).1).0
    ≡ ok (
        links_of 7 one_user
        ++ (if 7 == 7
            then new_link_subscription 7 (id_of (chosen env 5 link one_user)) link (codes "go" ∷ [])
              ∷ []
            else []))
get_links-subscribe_example =
    get_links-subscribe env 5 link 7 1 (codes "go" ∷ []) one_user 7 subscribe_run registered

unsubscribe-subscribe_example :
    let s = (subscribe env 5 link 7 (codes "go" ∷ []) (quiet one_user 1)).1 in
    ((unsubscribe env 7 link s).0 ≡ ok tt)
    × ((unsubscribe env 7 link s).1.tables.subs ≡ one_user.subs)
unsubscribe-subscribe_example =
    unsubscribe-subscribe env 5 link 7 1 (codes "go" ∷ []) one_user subscribe_run

same_name :
    Links.normalized_name ascii env.parse other_link ≡ Links.normalized_name ascii env.parse link
unfolding Links.normalized_name new_tracked_link check_resource text_eq split_path trim split
same_name = refl

other_text : other_link ≢ link
other_text e = absurd (ground (arith, ap (λ s. length s) e))

unsubscribe_other_text_example :
    let s = (subscribe env 5 link 7 (codes "go" ∷ []) (quiet one_user 1)).1 in
    ((unsubscribe env 7 other_link s).0 ≡ err (sentinel link_not_found))
    × ((unsubscribe env 7 other_link s).1.tables ≡ s.tables)
unsubscribe_other_text_example =
    unsubscribe_other_text env 5 link other_link 7 1 (codes "go" ∷ []) one_user subscribe_run
      same_name other_text

no_subs : any_of (of_user 7) one_user.subs ≡ false
unfolding any_of
no_subs = refl

some_subs : any_of (of_user 7) one_sub.subs ≡ true
unfolding any_of
some_subs = refl

remove_client_without_subscriptions_example :
    (remove_client 7 (quiet one_user 1)).0 ≡ err (wrap "remove subscriptions" (sentinel not_found))
remove_client_without_subscriptions_example =
    remove_client_without_subscriptions 7 1 one_user registered no_subs

remove_client_with_subscriptions_example : remove_client 7 (quiet one_sub 1) ≡ (
  ok tt,
  quiet
      (record one_sub {
        users = keep (λ u. not (u == 7)) one_sub.users;
        subs = keep (λ s. not (of_user 7 s)) one_sub.subs;
      })
      1,
)
remove_client_with_subscriptions_example =
    remove_client_with_subscriptions 7 1 one_sub registered some_subs
