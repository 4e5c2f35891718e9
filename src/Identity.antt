-- ===== src/Identity.antt =====
-- src/modules/identity/domain: the values of the identity module.
mod Principals
pub mod Transitions
unfoldable pub use Principals.*
