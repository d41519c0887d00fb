-- ===== src/Agent.antt =====
-- The agent, which filters, summarises and groups the updates between the scrapper and the bot:
-- internal/agent. `Filter` decides about an event, `Updates` holds the messages, `Window` makes one
-- delivery for each chat.
pub mod Filter
pub mod Updates
pub mod Window
pub mod Tables
pub mod Inbox
pub mod Outbox
pub mod Consumer
pub mod Producer
pub mod Relay
mod Tests
mod QueueTests
