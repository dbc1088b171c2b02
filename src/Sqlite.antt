-- ===== src/Sqlite.antt =====
-- rust/src/sqlite.rs.
pub mod Bind
pub mod Catalogue
pub mod Columns
pub mod Decodes
pub mod Covers
pub mod Chunks
pub mod Database
mod Tests
