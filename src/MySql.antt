-- ===== src/MySql.antt =====
-- rust/src/mysql.rs.
pub mod Statements
pub mod Columns
pub mod Typed
pub mod Catalogue
pub mod Bind
pub mod Database
mod Tests
