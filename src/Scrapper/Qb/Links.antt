-- ===== src/Scrapper/Qb/Links.antt =====
-- internal/scrapper/infrastructure/repository/query_builder/link_repo.go
use linktracker_eng.Prelude.{
  ℕ, Bool, not, ◌&&◌, ◌||◌, List, [], ◌∷◌, Option, none, Text, sentinel, fault, Result, ok, err,
  foreign_key_violation, ◌==◌, ltb, if◌then◌else◌, keep, count_of, any_of, sort, Unicode, ℤ, pos,
  negsuc,
}
use linktracker_eng.Exec.{raise, pure, or_return, ◌>>=◌}
use linktracker_eng.Db.{statement}
use linktracker_eng.Scrapper.Errors.{Sentinel, invalid_limit}
use linktracker_eng.Scrapper.Link.{Url, TrackedLink}
use linktracker_eng.Scrapper.Tables.{Tables, LinkRow, SubRow}
use linktracker_eng.Scrapper.Repo.{Op, on_conflict, some_rows}
use linktracker_eng.Scrapper.Repo.Links.{
  insert_link, select_link, found_link, normalized_name, collect_links, after_pointer,
}
use linktracker_eng.Scrapper.Qb.{
  Column, column_link_id, column_path, Value, number, text, null, matches,
}

abbrev pub link_field : Column → LinkRow → Value
link_field column_link_id l = number l.link_id
link_field column_path l = text l.path
link_field _ l = null

-- DELETE FROM links; no row that a subscription refers to
abbrev pub delete_links : (LinkRow → Bool) → ℕ → Tables → Result Sentinel (ℕ × Tables)
delete_links p now t =
    if any_of (λ (l : LinkRow). p l && any_of (λ (s : SubRow). s.res_id == l.link_id) t.subs)
      t.links
    then err (fault foreign_key_violation)
    else ok (count_of p t.links, record t { links = keep (λ l. not (p l)) t.links })

unfoldable pub add_link : TrackedLink → Op Unit
add_link l = or_return (statement (insert_link l)) on_conflict

unfoldable pub remove_link : ℕ → Op Unit
unfolding some_rows any_of
remove_link id = do
  n ← statement (delete_links (matches link_field ((column_link_id, number id) ∷ [])))
  some_rows n

unfoldable pub get_link_by_id : ℕ → Op TrackedLink
unfolding found_link
get_link_by_id id = do
  r ← statement (select_link (matches link_field ((column_link_id, number id) ∷ [])))
  found_link r

module _ (u : Unicode) (parse : Text → Option Url) where
  unfoldable pub get_link_by_name : Text → Op TrackedLink
  unfolding found_link normalized_name
  get_link_by_name name = do
    r ←
        statement (
          select_link
            (matches link_field ((column_path, text (normalized_name u parse name)) ∷ [])))
    found_link r

-- How the database orders rows of one time, and what Limit of goqu does.
module _ (tie : LinkRow → LinkRow → Bool) (limited : ℕ → List LinkRow → List LinkRow) where
  -- ORDER BY created_at ASC
  abbrev pub before : LinkRow → LinkRow → Bool
  before a b = ltb a.created_at b.created_at || (a.created_at == b.created_at && tie a b)

  abbrev pub select_batch : ℕ → Option ℕ → ℕ → Tables → Result Sentinel (List LinkRow × Tables)
  select_batch limit pointer now t =
      ok (limited limit (sort before (keep (after_pointer pointer) t.links)), t)

  unfoldable pub get_links_batch : ℤ → Option ℕ → Op (List TrackedLink × Option ℕ)
  unfolding collect_links
  get_links_batch (negsuc n) pointer = raise (sentinel invalid_limit)
  get_links_batch (pos limit) pointer = do
    rows ← statement (select_batch limit pointer)
    pure (collect_links rows ([], none))
