-- ===== src/Outbound.antt =====
-- src/shared/httpclient/index.ts: the outgoing requests of the service.
mod Requests
mod Exchanges
pub mod Receiving
pub mod Responding
pub mod Sharing
unfoldable pub use Requests.*
unfoldable pub use Exchanges.*
