-- ===== src/Tests.antt =====
-- Runs of the definitions on concrete inputs, at which the theorems apply.
pub mod Provenance
pub mod Identifiers
pub mod Errors
pub mod Components
pub mod Clock
pub mod Env
pub mod Http
pub mod Postgres
pub mod Events
pub mod Outbound
pub mod Jetstream
