-- ===== src/Scrapper/Service/Quiet.antt =====
-- Names that the proofs about the use cases share.
use linktracker_eng.Prelude.{ℕ, Bool, ◌==◌}
use linktracker_eng.Scrapper.Tables.{SubRow}

abbrev pub of_user : ℕ → SubRow → Bool
of_user client s = s.user_id == client
