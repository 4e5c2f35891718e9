-- ===== src/Postgres.antt =====
-- src/shared/postgres/index.ts: failures, transactions and migrations of the database adapter.
mod Mapping
mod Transactions
mod Migrations
pub mod Outcomes
pub mod Races
pub mod Migrating
unfoldable pub use Mapping.*
unfoldable pub use Transactions.*
unfoldable pub use Migrations.*
