-- ===== src/Postgres.antt =====
-- rust/src/postgres.rs: the texts that the Postgres back end builds and reads.
pub mod Statements
pub mod Copy
pub mod Catalogue
pub mod Columns
pub mod Typed
pub mod Relations
pub mod Database
pub mod Hex
mod Tests
