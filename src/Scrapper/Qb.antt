-- ===== src/Scrapper/Qb.antt =====
-- The repositories through a query builder, internal/scrapper/infrastructure/repository/query_builder.
-- A condition goqu.Ex is a list of columns with their values, which a row has all; what the statements
-- do is what the ones of Scrapper/Repo do.
pub mod TextArray
pub mod Users
pub mod Links
pub mod Subs
pub mod Outbox
pub mod Laws
pub mod Pending
use linktracker_eng.Prelude.{ℕ, Bool, true, false, ◌&&◌, List, [], ◌∷◌, Text, text_eq, ◌==◌}

-- The columns, by their names in constants.go.
pub data Column : Type 0 where
  column_link_id column_user_id column_res_id column_chat_id column_path : Column
  column_link column_id column_processed_at : Column

pub data Value : Type 0 where
  number : ℕ → Value
  text : Text → Value
  null : Value

abbrev pub Ex : Type 0
Ex = List (Column × Value)

-- `column = value`, and `column IS NULL` for nil
abbrev pub same_value : Value → Value → Bool
same_value (number a) (number b) = a == b
same_value (text a) (text b) = text_eq a b
same_value null null = true
same_value _ _ = false

-- WHERE, for the columns of a table
abbrev pub matches : {Row : Type 0} → (Column → Row → Value) → Ex → Row → Bool
matches field [] r = true
matches field ((c, v) ∷ ex) r = same_value (field c r) v && matches field ex r
