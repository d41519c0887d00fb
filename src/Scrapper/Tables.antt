-- ===== src/Scrapper/Tables.antt =====
-- The scrapper's tables (migrations/), and the rows that the repositories make of them and into
-- them: internal/scrapper/domain/subscription.go, internal/scrapper/application/crawler_case.go
-- and internal/scrapper/infrastructure/repository/dto.go.
use linktracker_eng.Prelude.{ℕ, Bool, ◌&&◌, List, [], Option, Text, ◌==◌, text_eq, any_of}

-- Identifiers (int64, uuid) are only compared for equality; times count from the zero time.
pub record LinkRow : Type 0 where
  pub link_id : ℕ
  pub path : Text
  pub resource_type : Text
  pub created_at : ℕ

pub record SubRow : Type 0 where
  pub user_id : ℕ
  pub res_id : ℕ
  pub link : Text
  pub tags : List Text
  pub last_update : Option ℕ

pub record ResourceShot : Type 0 where
  pub id : ℕ
  pub url : Text
  pub event_type : Text
  pub description : Text
  pub author : Text
  pub chat_ids : List ℕ
  pub updated_at : ℕ

pub record OutboxRow : Type 0 where
  pub id : ℕ
  pub shot : ResourceShot
  pub created_at : ℕ
  pub processed_at : Option ℕ
  pub failed : Bool  -- whether `error` is set
  pub retry_count : ℕ

pub record Tables : Type 0 where
  pub users : List ℕ
  pub links : List LinkRow
  pub subs : List SubRow
  pub outbox : List OutboxRow
  pub serial : ℕ  -- the sequence of outbox.id

abbrev pub empty_tables : Tables
empty_tables = record { users = []; links = []; subs = []; outbox = []; serial = 1 }

-- LinkSubscription
pub record LinkSubscription : Type 0 where
  pub user_id : ℕ
  pub res_id : ℕ
  pub link : Text
  pub tags : List Text
  pub last_update : ℕ

-- NewLinkSubscription; `last_update` is the zero time
unfoldable pub new_link_subscription : ℕ → ℕ → Text → List Text → LinkSubscription
new_link_subscription user_id res_id link tags = record {
  user_id = user_id;
  res_id = res_id;
  link = link;
  tags = tags;
  last_update = 0;
}

-- SetLastUpdate
unfoldable pub set_last_update : ℕ → LinkSubscription → LinkSubscription
set_last_update t s = record s { last_update = t }

unfoldable pub has_user : ℕ → List ℕ → Bool
unfolding any_of
has_user id = any_of (λ u. u == id)

unfoldable pub has_link : ℕ → List LinkRow → Bool
unfolding any_of
has_link id = any_of (λ l. l.link_id == id)

unfoldable pub has_path : Text → List LinkRow → Bool
unfolding any_of
has_path p = any_of (λ l. text_eq l.path p)

abbrev pub is_sub : ℕ → ℕ → SubRow → Bool
is_sub user res s = s.user_id == user && s.res_id == res

unfoldable pub has_sub : ℕ → ℕ → List SubRow → Bool
unfolding any_of
has_sub user res = any_of (is_sub user res)
