-- ===== src/Bot.antt =====
-- The Telegram bot: internal/bot. `States` is the memory of the dialogues, `Texts` what is answered,
-- `Command` the handler of messages, `Dialogue` the dialogue it is to hold, with the refinement.
-- `Inbox`, `Consumer` and `Relay` take updates from Kafka to Telegram.
pub mod States
pub mod Texts
pub mod Command
pub mod Dialogue
pub mod Traces
pub mod Clients
pub mod Inbox
pub mod Consumer
pub mod Decoder
pub mod Relay
pub mod Handler
pub mod Servers
pub mod Tests
mod HandlerTests
mod InboxTests
mod ClientTests
