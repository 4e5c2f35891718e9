-- ===== src/Jetstream.antt =====
-- src/shared/events/jetstream/broker.ts: the message broker.
mod Links
mod Brokers
pub mod Transferring
pub mod Acknowledging
pub mod Answers
pub mod Publishing
pub mod Receipts
unfoldable pub use Links.*
unfoldable pub use Brokers.*
