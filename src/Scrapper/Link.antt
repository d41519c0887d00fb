-- ===== src/Scrapper/Link.antt =====
-- internal/scrapper/domain/resource.go: which links are tracked, and their stored form. What
-- `url.Parse` makes of a text is the argument `parse`.
use linktracker_eng.Prelude.{
  ℕ, Bool, false, not, ◌||◌, List, [], ◌∷◌, ◌++◌, Option, none, some, Text, codes, text_eq, length,
  ltb, ◌==◌, if◌then◌else◌, Unicode, to_lower, trim, trim_space, split, path_clean, is_nil,
  sentinel, fault, wrap, Result, ok, err, bad_url,
}
use linktracker_eng.Scrapper.Errors.{Sentinel, invalid_resource, invalid_path}

pub data LinkSource : Type 0 where
  stack_overflow git_hub : LinkSource

-- The text of a source, as it is stored.
unfoldable pub source_text : LinkSource → Text
source_text stack_overflow = codes "stackoverflow"
source_text git_hub = codes "github"

pub record TrackedLink : Type 0 where
  pub id : ℕ
  pub path : Text
  pub source : LinkSource

-- What the code reads of a *url.URL: Hostname() and Path.
pub record Url : Type 0 where
  pub hostname : Text
  pub path : Text

abbrev split_trimmed : Text → List Text
split_trimmed [] = []
split_trimmed (c ∷ s) = split b'/' (c ∷ s)

unfoldable pub split_path : Text → List Text
split_path p = split_trimmed (trim (λ c. c == b'/') p)

abbrev first_is : Text → List Text → Bool
first_is w [] = false
first_is w (p ∷ ps) = text_eq p w

-- CheckResource
unfoldable pub check_resource : Url → Result Sentinel LinkSource
check_resource u =
    let parts = split_path u.path in
    if is_nil u.hostname
    then err (wrap "host is empty" (sentinel invalid_resource))
    else if text_eq u.hostname (codes "github.com")
    then (if ltb (length parts) 2
        then err (wrap "owner/repo" (sentinel invalid_path))
        else ok git_hub)
    else if text_eq u.hostname (codes "stackoverflow.com")
    then (if ltb (length parts) 2 || not (first_is (codes "questions") parts)
        then err (wrap "questions/" (sentinel invalid_path))
        else ok stack_overflow)
    else err (sentinel invalid_resource)

abbrev first_two : Text → List Text → Text
first_two whole (a ∷ b ∷ rest) = b'/' ∷ (a ++ b'/' ∷ b)
first_two whole _ = whole

abbrev first_question : Text → List Text → Text
first_question whole (a ∷ b ∷ rest) =
    if text_eq a (codes "questions") then b'/' ∷ (a ++ b'/' ∷ b) else whole
first_question whole _ = whole

abbrev shortened : LinkSource → Text → Text
shortened git_hub clean = first_two clean (split_path clean)
shortened stack_overflow clean = first_question clean (split_path clean)

module _ (u : Unicode) where
  -- cleanURL
  unfoldable pub clean_url : Url → LinkSource → Text
  clean_url url source =
      to_lower u url.hostname ++ shortened source (path_clean (b'/' ∷ trim_space url.path))

  abbrev with_source : ℕ → Url → Result Sentinel LinkSource → Result Sentinel TrackedLink
  with_source new_id url (err e) = err e
  with_source new_id url (ok source) =
      ok (record { id = new_id; path = clean_url url source; source = source })

  abbrev link_of_url : ℕ → Option Url → Result Sentinel TrackedLink
  link_of_url new_id none = err (fault bad_url)
  link_of_url new_id (some url) = with_source new_id url (check_resource url)

  module _ (parse : Text → Option Url) where
    -- NewTrackedLink; `new_id` is what `uuid.New()` returns
    unfoldable pub new_tracked_link : ℕ → Text → Result Sentinel TrackedLink
    new_tracked_link new_id p = link_of_url new_id (parse (trim_space p))

-- CreateTrackedLink, of a stored row
unfoldable pub create_tracked_link : ℕ → Text → Text → Result Sentinel TrackedLink
unfolding source_text
create_tracked_link id p kind =
    if text_eq kind (source_text stack_overflow)
    then ok (record { id = id; path = p; source = stack_overflow })
    else if text_eq kind (source_text git_hub)
    then ok (record { id = id; path = p; source = git_hub })
    else err (sentinel invalid_resource)
