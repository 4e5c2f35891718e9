-- ===== src/Events.antt =====
-- src/shared/events: durable envelopes, the outbox and the mailbox.
mod Works
mod Envelopes
mod Outbox
mod Delivery
pub mod Fields
pub mod Reading
pub mod References
pub mod Attributions
pub mod Restoring
pub mod Normalizing
pub mod Decoding
pub mod Tables
pub mod Claims
pub mod Orders
pub mod Sending
pub mod Marking
pub mod Mailbox
pub mod Handling
pub mod Dispatches
unfoldable pub use Works.*
unfoldable pub use Envelopes.*
unfoldable pub use Outbox.*
unfoldable pub use Delivery.*
