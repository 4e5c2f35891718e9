-- ===== src/Provenance.antt =====
-- src/shared/provenance: actors, attribution, references, operations, work, scopes, incoming hints,
-- link sets and the factory. Membership in a module's weak set is the field `known` of a value: only the
-- module's own constructors make it true.
mod Actors
mod Works
mod Scopes
mod Incoming
mod Links
mod Factories
pub mod Validity
pub mod Execution
pub mod Lineage
pub mod Descent
pub mod Entry
pub mod References
pub mod Inspection
pub mod LinkSets
unfoldable pub use Actors.*
unfoldable pub use Works.*
unfoldable pub use Scopes.*
unfoldable pub use Incoming.*
unfoldable pub use Links.*
unfoldable pub use Factories.*
