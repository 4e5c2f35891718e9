-- ===== src/Pagination.antt =====
-- src/shared/pagination/index.ts: bounded pages and cursors that are bound to a query.
mod Cursors
pub mod Paging
unfoldable pub use Cursors.*
