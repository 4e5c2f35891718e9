-- ===== src/Http.antt =====
-- src/shared/http: how a completed request is classified, reported and told to the caller.
mod Policies
mod Lifecycles
pub mod Classifying
pub mod Finishing
unfoldable pub use Policies.*
unfoldable pub use Lifecycles.*
