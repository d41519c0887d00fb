-- ===== src/Scrapper.antt =====
-- The scrapper service: internal/scrapper.
pub mod Errors
pub mod Link
pub mod Tables
pub mod Repo
pub mod Service
pub mod Invariant
pub mod Frame
pub mod Cached
pub mod Valkey
pub mod Relay
pub mod Qb
pub mod Http
pub mod Grpc
pub mod BotClients
pub mod Producer
pub mod Crawler
pub mod Crawlers
pub mod Requests
pub mod Tests
pub mod RelayTests
mod QbTests
mod CrawlerTests
mod CrawlersTests
mod BotClientsTests
