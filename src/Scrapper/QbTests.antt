-- ===== src/Scrapper/QbTests.antt =====
-- The repositories through the query builder on concrete tables.
use linktracker_eng.Prelude.{
  ℕ, Bool, ◌≡◌, refl, List, [], ◌∷◌, none, Text, codes, ltb, take, pos, ok,
}
use linktracker_eng.Db.{Session}
use linktracker_eng.Db.Quiet.{quiet}
use linktracker_eng.Scrapper.Link.{TrackedLink, git_hub}
use linktracker_eng.Scrapper.Tables.{Tables, LinkRow, OutboxRow, LinkSubscription}
use linktracker_eng.Scrapper.Repo.Users
use linktracker_eng.Scrapper.Repo.Links
use linktracker_eng.Scrapper.Repo.Subs
use linktracker_eng.Scrapper.Relay.{relay_outbox}
use linktracker_eng.Scrapper.Qb
use linktracker_eng.Scrapper.Qb.TextArray.{to_text_array_literal}
use linktracker_eng.Scrapper.Qb.Laws.{subs_same, links_same}
use linktracker_eng.Scrapper.Qb.Pending.{built, relay_outbox_nothing}
use linktracker_eng.Scrapper.Tests.{env, ascii, one_sub}
use linktracker_eng.Scrapper.RelayTests.{second_fails, two_rows}

abbrev s : Session Tables
s = quiet one_sub 4

abbrev tags : List Text
tags = codes "a\"b" ∷ codes "c,d" ∷ []

abbrev sub : LinkSubscription
sub = record { user_id = 7; res_id = 5; link = codes "l"; tags = tags; last_update = 0 }

tags_literal : to_text_array_literal tags ≡ codes "{\"a\\\"b\",\"c,d\"}"
unfolding to_text_array_literal
tags_literal = refl

subs_same_example :
    (Qb.Subs.add_subscription sub s ≡ Subs.add_subscription sub s)
    × (Qb.Subs.remove_subscription sub s ≡ Subs.remove_subscription sub s)
    × (Qb.Subs.remove_subscriptions_by_user_id 7 s ≡ Subs.remove_subscriptions_by_user_id 7 s)
    × (Qb.Subs.add_tags env.collate 7 5 tags s ≡ Subs.add_tags env.collate 7 5 tags s)
    × (Qb.Subs.clear_tags 7 5 s ≡ Subs.clear_tags 7 5 s)
    × (Qb.Subs.get_subscriptions_by_resource_id 5 s ≡ Subs.get_subscriptions_by_resource_id 5 s)
    × (Qb.Subs.get_subscriptions_by_user_id 7 s ≡ Subs.get_subscriptions_by_user_id 7 s)
    × (Qb.Subs.update_subscription_last_update 7 5 9 s
        ≡ Subs.update_subscription_last_update 7 5 9 s)
subs_same_example = subs_same env.collate sub 7 5 9 tags s

abbrev tie : LinkRow → LinkRow → Bool
tie a b = ltb a.link_id b.link_id

abbrev limited : ℕ → List LinkRow → List LinkRow
limited = take

abbrev tracked : TrackedLink
tracked = record { id = 6; path = codes "github.com/a/c"; source = git_hub }

links_same_example :
    (Qb.Users.add_client 7 s ≡ Users.add_client 7 s)
    × (Qb.Users.remove_client 7 s ≡ Users.remove_client 7 s)
    × (Qb.Users.get_client_by_id 7 s ≡ Users.get_client_by_id 7 s)
    × (Qb.Links.add_link tracked s ≡ Links.add_link tracked s)
    × (Qb.Links.remove_link 5 s ≡ Links.remove_link 5 s)
    × (Qb.Links.get_link_by_id 5 s ≡ Links.get_link_by_id 5 s)
    × (Qb.Links.get_link_by_name ascii env.parse (codes "github.com/a/b") s
        ≡ Links.get_link_by_name ascii env.parse (codes "github.com/a/b") s)
    × (Qb.Links.get_links_batch tie limited (pos 2) none s ≡ Links.get_links_batch (pos 2) none s)
links_same_example =
    links_same ascii env.parse tie limited 7 5 2 tracked (codes "github.com/a/b") none s
      (λ a b. refl) (λ rows. refl)

abbrev limited_rows : ℕ → List OutboxRow → List OutboxRow
limited_rows = take

relay_outbox_nothing_example :
    relay_outbox (built limited_rows) second_fails 10 (quiet two_rows 5) ≡ (ok tt, quiet two_rows 5)
relay_outbox_nothing_example = relay_outbox_nothing limited_rows second_fails 10 5 two_rows
