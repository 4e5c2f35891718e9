-- ===== src/Identifiers.antt =====
-- src/shared/id: canonical identifiers (value.ts), the version 7 generator (v7.ts) and the finite
-- sequence of fixtures (sequence.ts).
mod Values
mod Generator
pub mod Hex
pub mod Format
pub mod Ordering
pub mod Issuing
pub mod History
pub mod Canonical
unfoldable pub use Values.*
unfoldable pub use Generator.*
