-- ===== src/Clock.antt =====
-- src/shared/clock/clock.ts: the fake clock. A date is its time value, which is no integer if it is invalid.
mod Fakes
pub mod Advancing
unfoldable pub use Fakes.*
