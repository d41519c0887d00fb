-- ===== src/Scrapper/Errors.antt =====
-- The errors of the scrapper: internal/scrapper/application/errors.go, and those that
-- internal/scrapper/domain and the repositories declare.
use linktracker_eng.Prelude.{ℕ, Bool, ◌==◌, Error, is_error}

pub data Sentinel : Type 0 where
  not_found already_exists bad_request : Sentinel
  chat_not_found link_not_found link_already_tracked subscription_not_found : Sentinel
  invalid_resource invalid_path invalid_limit invalid_link unauthorized : Sentinel

abbrev pub tag : Sentinel → ℕ
tag not_found = 0
tag already_exists = 1
tag bad_request = 2
tag chat_not_found = 3
tag link_not_found = 4
tag link_already_tracked = 5
tag subscription_not_found = 6
tag invalid_resource = 7
tag invalid_path = 8
tag invalid_limit = 9
tag invalid_link = 10
tag unauthorized = 11

abbrev pub same : Sentinel → Sentinel → Bool
same a b = tag a == tag b

-- errors.Is(err, target)
unfoldable pub is : Error Sentinel → Sentinel → Bool
unfolding is_error
is = is_error same
