-- ===== src/Scrapper/Invariant.antt =====
-- What the schema of migrations/ promises of the tables, and that every operation keeps it.
pub mod Statements
pub mod Repos
pub mod Service
use linktracker_eng.Prelude.{ℕ, ◌≡◌, Bool, true, ◌&&◌, List, ◌==◌, text_eq, All, Distinct}
use linktracker_eng.Scrapper.Tables.{Tables, LinkRow, SubRow, has_user, has_link, empty_tables}

abbrev pub same_user : ℕ → ℕ → Bool
same_user a b = a == b

abbrev pub same_id : LinkRow → LinkRow → Bool
same_id a b = a.link_id == b.link_id

abbrev pub same_path : LinkRow → LinkRow → Bool
same_path a b = text_eq a.path b.path

abbrev pub same_sub : SubRow → SubRow → Bool
same_sub a b = a.user_id == b.user_id && a.res_id == b.res_id

-- A subscription refers to a user and to a link.
abbrev pub Refers : List ℕ → List LinkRow → SubRow → Type 0
Refers users links s = (has_user s.user_id users ≡ true) × (has_link s.res_id links ≡ true)

pub record IsWellFormed (t : Tables) : Type 0 where
  pub users_distinct : Distinct same_user t.users
  pub ids_distinct : Distinct same_id t.links
  pub paths_distinct : Distinct same_path t.links
  pub subs_distinct : Distinct same_sub t.subs
  pub subs_refer : All (Refers t.users t.links) t.subs

pub IsWellFormed-empty_tables : IsWellFormed empty_tables
IsWellFormed-empty_tables = record {
  users_distinct = tt;
  ids_distinct = tt;
  paths_distinct = tt;
  subs_distinct = tt;
  subs_refer = tt;
}
