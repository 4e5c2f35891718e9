-- ===== src/Errors.antt =====
-- src/shared/errors: kind.ts, result.ts and failure.ts. The weak maps `diagnostics` and `carriers`
-- recognise the objects that the module made: a value of type `Unknown` says which it is.
mod Kinds
mod Results
mod Failures
pub mod Projection
unfoldable pub use Kinds.*
unfoldable pub use Results.*
unfoldable pub use Failures.*
