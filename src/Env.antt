-- ===== src/Env.antt =====
-- src/shared/env: the reader of typed configuration from an environment.
mod Parsing
mod Readers
pub mod Integers
pub mod Soundness
pub mod Invariant
unfoldable pub use Parsing.*
unfoldable pub use Readers.*
