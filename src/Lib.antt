-- ===== src/Lib.antt =====
-- A verification development for linktracker_eng, a service that tracks changes of GitHub
-- repositories and Stack Overflow questions for Telegram chats.
--
-- The program has three processes. The scrapper keeps users, links and subscriptions in
-- PostgreSQL, crawls the links, and puts what changed into an outbox. The agent reads these
-- updates, filters and summarises them, and groups them into one delivery for each chat. The bot
-- holds the dialogue with the chats, calls the scrapper for their commands, and sends the
-- deliveries. This library models the subscriptions of the scrapper with their cache, its crawl
-- and its outbox, the messages between the processes, the agent's inbox, filter, grouping and
-- outbox, the bot's dialogue and inbox, and the retry package that the clients share.
--
-- Files and code:
--   Prelude/*: native numbers and lists; Go strings as lists of runes (a byte that belongs to no
--     rune is a code of its own), with what is used of `strings`, `path` and `unicode`; Go errors
--     as values (sentinel, %w wrapping, errors.Join, errors.Is).
--   Exec/*: functions on a store that return a value or an error, with the store beside the
--     error.
--   Db/*: internal/infrastructure/repository/transactor.go. A Session holds the tables and says
--     which of the next statements fail; statement is GetQuerier with one query, with_transaction
--     is WithTransaction.
--   Retry/*: pkg/retry. do_fn is Do, do_with_code is DoWithCode.
--   Scrapper/Link: internal/scrapper/domain/resource.go.
--   Scrapper/Tables: the tables of migrations/, internal/scrapper/domain/subscription.go.
--   Scrapper/Repo/{Users,Links,Subs,Outbox}: internal/scrapper/infrastructure/repository/sql,
--     with the methods under their Go names in snake case; the statements are functions on Tables
--     that check the constraints of the schema.
--   Scrapper/Qb: internal/scrapper/infrastructure/repository/query_builder, with the same names.
--   Scrapper/Service: internal/scrapper/application/subscription_case.go, and Service/Bodies its
--     subscription_tx.go. Scrapper/Requests runs the methods in sequence.
--   Scrapper/Cached: subscription_cached_case.go. Scrapper/Frame: what requests leave alone.
--   Scrapper/Valkey: internal/scrapper/infrastructure/repository/valkey.
--   Scrapper/Relay: internal/scrapper/infrastructure/scheduler/scheduler.go (the outbox) and
--     internal/scrapper/infrastructure/notifier/fallback.go.
--   Scrapper/Crawler: crawler_case.go and crawler_tx.go of internal/scrapper/application;
--     notify_subscribers is NotifySubscribers, process_link is processLink. Its child modules
--     hold proofs.
--   Scrapper/Crawlers: internal/scrapper/infrastructure/crawlers; search_resource is
--     SearchResource.
--   Scrapper/Http and Scrapper/Grpc: the handlers of
--     internal/scrapper/infrastructure/{http,grpc}/server, and Bot/Clients:
--     internal/bot/infrastructure/{http,grpc}/client, which reads their answers.
--   Bot/Handler: handler.go of internal/bot/infrastructure/telegram; handle_update is Handle.
--   Bot/Servers: internal/bot/infrastructure/{http,grpc}/server, and Scrapper/BotClients:
--     internal/scrapper/infrastructure/{http,grpc}/client, which sends them the updates.
--   Idempotency: internal/infrastructure/repository/idempotency_repo.go.
--   Wire: the frame and the data of the messages, which internal/*/infrastructure/kafka write and
--     read. Scrapper/Producer: internal/scrapper/infrastructure/kafka/producer.go.
--   Agent/Filter: internal/agent/domain. Agent/Updates and Agent/Window:
--     internal/agent/application/dto.go and process_case.go.
--   Agent/{Inbox,Outbox}: internal/agent/infrastructure/repository. Agent/{Consumer,Producer}:
--     internal/agent/infrastructure/kafka. Agent/Relay:
--     internal/agent/infrastructure/scheduler/jobs.go.
--   Bot/States: internal/bot/application/states.go and
--     internal/bot/infrastructure/repository/state_repo.go. Bot/Texts and Bot/Command:
--     internal/bot/application/command_service.go.
--   Bot/Inbox: internal/bot/infrastructure/repository/inbox.go. Bot/Consumer:
--     internal/bot/infrastructure/kafka/consumer.go, and Bot/Decoder its dto.go. Bot/Relay:
--     internal/bot/infrastructure/scheduler/scheduler.go.
--   Invariant, Frame, Coherence, Laws, Removal, Removing, Tracking, RoundTrip, Undo, Outcome,
--     Dialogue, Traces, Batches, Rounds, Content and Delivery hold proofs; the Tests modules
--     apply the theorems to concrete values.
--
-- What is a parameter: url.Parse and url.PathEscape, the tables of `unicode` (which are ASCII's
-- below 128), the order of the database's collation, uuid.New, NOW(), random numbers, sleeping,
-- the context, the summariser, the time format, the Avro codec and the registry of its schemas,
-- the HTTP client with its decoder, the JSON library, Limit of goqu, what the crawlers find (in
-- Scrapper/Crawler), what the circuit breaker and the retrier make of the calls of the scrapper,
-- the orders in which workers finish and maps are iterated, and the answers of the scrapper (in
-- Bot/Command). Identifiers are natural numbers, since they are only compared; times count from
-- Go's zero time.
--
-- Bounds and fuel: loops are structural, over lists or over the attempts that are left. The
-- digits of a number have the fuel `n + 1`, which is at least their count. Retry computes delays
-- modulo 2 ^ 64, and takes a result from 2 ^ 63 on as the negative number that it is. The loop of
-- notify_subscribers has fuel, and its theorem asks for more than there are links.
--
-- Not modelled: the interleaving of the transactions of different links, the Valkey server and
-- the expiry of cached entries, AddBatch of the query builder, Kafka itself, the headers of dead
-- letters, the routing and decoding of requests, generated code, configuration, wiring and
-- metrics. Logging and metrics are left out of the functions, but for the command rate that the
-- bot records.
pub mod Prelude
pub mod Exec
pub mod Db
pub mod Retry
pub mod Scrapper
pub mod Agent
pub mod Bot
pub mod Idempotency
pub mod Wire
