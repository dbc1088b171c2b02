-- ===== src/Sql.antt =====
-- rust/src/sql.rs: the SQL text that the file system sends to a database.
-- `Statements` has the builders, `Parser` what uses the `sqlparser` crate.
pub mod Statements
pub mod Parser
pub mod Quoting
pub mod Placeholders
pub mod Tests
