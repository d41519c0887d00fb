-- ===== src/Scrapper/RelayTests.antt =====
-- The relay of the outbox on two rows, of which one cannot be sent.
use linktracker_eng.Prelude.{
  ℕ, ◌≡◌, refl, false, [], ◌∷◌, none, some, map, Distinct, sentinel, ok, ◌==◌, if◌then◌else◌,
  any_of, keep, sort,
}
use linktracker_eng.Db.Quiet.{quiet}
use linktracker_eng.Scrapper.Errors.{not_found}
use linktracker_eng.Scrapper.Tables.{Tables, OutboxRow, ResourceShot, empty_tables}
use linktracker_eng.Scrapper.Relay.{
  Transport, sql, relay_outbox, pending, same_id, relayed, relay_outbox_lem,
}

abbrev shot : ℕ → ResourceShot
shot id = record {
  id = id;
  url = [];
  event_type = [];
  description = [];
  author = [];
  chat_ids = 1 ∷ [];
  updated_at = 0;
}

abbrev row : ℕ → OutboxRow
row id = record {
  id = id;
  shot = shot id;
  created_at = id;
  processed_at = none;
  failed = false;
  retry_count = 0;
}

abbrev pub two_rows : Tables
two_rows = record empty_tables { outbox = row 1 ∷ row 2 ∷ []; serial = 3 }

abbrev pub second_fails : Transport
second_fails s = if s.id == 2 then some (sentinel not_found) else none

two_rows-Distinct : Distinct same_id (pending 10 two_rows)
unfolding any_of keep sort
two_rows-Distinct = (refl, (refl, tt))

relay_outbox_lem_example : relay_outbox sql second_fails 10 (quiet two_rows 5) ≡ (
  ok tt,
  quiet
      (record two_rows {
        outbox = map (relayed second_fails 5 (pending 10 two_rows)) two_rows.outbox;
      })
      5,
)
relay_outbox_lem_example = relay_outbox_lem second_fails 10 5 two_rows two_rows-Distinct
