-- ===== src/Scrapper/Repo/Links.antt =====
-- internal/scrapper/infrastructure/repository/sql/link_repo.go
use linktracker_eng.Prelude.{
  ℕ, Bool, true, not, ◌&&◌, ◌||◌, List, [], ◌∷◌, ◌++◌, Option, none, some, Text, text_eq, sentinel,
  fault, Result, ok, err, unique_violation, foreign_key_violation, ◌==◌, ltb, if◌then◌else◌, keep,
  count_of, any_of, find_of, take, sort, Unicode, ℤ, pos, negsuc,
}
use linktracker_eng.Exec.{raise, pure, lift, or_return, ◌>>=◌}
use linktracker_eng.Db.{statement}
use linktracker_eng.Scrapper.Errors.{Sentinel, not_found, invalid_limit}
use linktracker_eng.Scrapper.Link.{
  Url, TrackedLink, source_text, new_tracked_link, create_tracked_link,
}
use linktracker_eng.Scrapper.Tables.{Tables, LinkRow, has_link, has_path}
use linktracker_eng.Scrapper.Repo.{Op, on_conflict, some_rows}

abbrev pub link_row : TrackedLink → ℕ → LinkRow
link_row l now = record {
  link_id = l.id;
  path = l.path;
  resource_type = source_text l.source;
  created_at = now;
}

-- INSERT INTO links; `link_id` is the primary key and `path` is unique
abbrev pub insert_link : TrackedLink → ℕ → Tables → Result Sentinel (Unit {0} × Tables)
insert_link l now t =
    if has_link l.id t.links || has_path l.path t.links
    then err (fault unique_violation)
    else ok (tt, record t { links = t.links ++ link_row l now ∷ [] })

-- DELETE FROM links; subscriptions.res_id refers to the row
abbrev pub delete_link : ℕ → ℕ → Tables → Result Sentinel (ℕ × Tables)
delete_link id now t =
    if has_link id t.links && any_of (λ s. s.res_id == id) t.subs
    then err (fault foreign_key_violation)
    else ok (
      count_of (λ l. l.link_id == id) t.links,
      record t { links = keep (λ l. not (l.link_id == id)) t.links },
    )

abbrev pub select_link : (LinkRow → Bool) → ℕ → Tables → Result Sentinel (Option LinkRow × Tables)
select_link p now t = ok (find_of p t.links, t)

-- ORDER BY created_at ASC, link_id ASC
abbrev pub before : LinkRow → LinkRow → Bool
before a b =
    ltb a.created_at b.created_at || (a.created_at == b.created_at && ltb a.link_id b.link_id)

abbrev pub after_pointer : Option ℕ → LinkRow → Bool
after_pointer none l = true
after_pointer (some p) l = ltb p l.created_at

abbrev pub select_batch : ℕ → Option ℕ → ℕ → Tables → Result Sentinel (List LinkRow × Tables)
select_batch limit pointer now t =
    ok (take limit (sort before (keep (after_pointer pointer) t.links)), t)

abbrev pub row_link : LinkRow → Result Sentinel TrackedLink
row_link l = create_tracked_link l.link_id l.path l.resource_type

unfoldable pub add_link : TrackedLink → Op Unit
add_link l = or_return (statement (insert_link l)) on_conflict

unfoldable pub remove_link : ℕ → Op Unit
unfolding some_rows
remove_link id = do n ← statement (delete_link id); some_rows n

unfoldable pub found_link : Option LinkRow → Op TrackedLink
found_link none = raise (sentinel not_found)
found_link (some l) = lift (row_link l)

unfoldable pub get_link_by_id : ℕ → Op TrackedLink
unfolding found_link
get_link_by_id id = do r ← statement (select_link (λ l. l.link_id == id)); found_link r

module _ (u : Unicode) (parse : Text → Option Url) where
  abbrev pub normalized : Result Sentinel TrackedLink → Text → Text
  normalized (ok l) name = l.path
  normalized (err e) name = name

  -- The path that a name is looked up by; the id of the link made on the way is dropped.
  unfoldable pub normalized_name : Text → Text
  normalized_name name = normalized (new_tracked_link u parse 0 name) name

  unfoldable pub get_link_by_name : Text → Op TrackedLink
  unfolding found_link
  get_link_by_name name = do
    r ← statement (select_link (λ l. text_eq l.path (normalized_name name)))
    found_link r

-- The rows of a batch that are links, and the pointer behind them: the time of the last one.
abbrev pub collect_link :
    Result Sentinel TrackedLink → ℕ → List TrackedLink × Option ℕ → List TrackedLink × Option ℕ
collect_link (err e) t acc = acc
collect_link (ok l) t (links, last) = (links ++ l ∷ [], some t)

unfoldable pub collect_links :
    List LinkRow → List TrackedLink × Option ℕ → List TrackedLink × Option ℕ
collect_links [] acc = acc
collect_links (l ∷ ls) acc = collect_links ls (collect_link (row_link l) l.created_at acc)

unfoldable pub get_links_batch : ℤ → Option ℕ → Op (List TrackedLink × Option ℕ)
unfolding collect_links
get_links_batch (negsuc n) pointer = raise (sentinel invalid_limit)
get_links_batch (pos limit) pointer = do
  rows ← statement (select_batch limit pointer)
  pure (collect_links rows ([], none))
