-- ===== src/Validation.antt =====
-- src/shared/validation/index.ts: strict scalar checks and bounded reports of fields.
mod Scalars
mod Reports
pub mod Bounded
unfoldable pub use Scalars.*
unfoldable pub use Reports.*
