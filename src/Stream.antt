-- ===== src/Stream.antt =====
-- rust/src/stream.rs and rust/src/file.rs: files opened on a database, read by a cursor.
pub mod Codec
pub mod Defs
pub mod Cursor
pub mod Fill
pub mod Refines
pub mod Open
pub mod Safety
pub mod Tests
