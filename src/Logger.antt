-- ===== src/Logger.antt =====
-- src/shared/logger: the queue between the loggers and their sink.
mod Deliveries
pub mod Invariant
pub mod Accounting
pub mod Draining
unfoldable pub use Deliveries.*
