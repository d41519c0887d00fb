-- ===== src/Idempotency.antt =====
-- internal/infrastructure/repository/idempotency_repo.go: which messages have been seen, by the header
-- that holds their key. The lock makes each call one step.
use linktracker_eng.Prelude.{
  Bool, true, false, List, [], ◌∷◌, Text, codes, text_eq, if◌then◌else◌, is_nil, any_of,
}

-- The keys that have been seen.
abbrev pub Seen : Type 0
Seen = List Text

-- checkHeader: the value of the first header with a key, or the empty text
unfoldable pub check_header : List (Text × Text) → Text → Text
check_header [] key = []
check_header ((k, value) ∷ headers) key =
    let rest = check_header headers key in if text_eq k key then value else rest

abbrev check_key : Text → Seen → Bool × Seen
check_key key seen =
    if is_nil key
    then (false, seen)
    else if any_of (text_eq key) seen
    then (true, seen)
    else (false, key ∷ seen)

-- CheckAndStore, which returns no error
unfoldable pub check_and_store : List (Text × Text) → Seen → Bool × Seen
unfolding check_header any_of
check_and_store headers seen = check_key (check_header headers (codes "idempotency-key")) seen
