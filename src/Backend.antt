-- ===== src/Backend.antt =====
-- What the back ends of rust/src/sqlite.rs, rust/src/mysql.rs and rust/src/postgres.rs share.
pub mod Driver
pub mod Rows
pub mod Typed
pub mod Write
pub mod Insert
pub mod Written
pub mod Worker
pub mod Delivers
pub mod Query
pub mod Answers
pub mod Tests
