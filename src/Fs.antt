-- ===== src/Fs.antt =====
-- rust/src/fs.rs: the file system over a database.
pub mod Errors
pub mod Database
pub mod Infos
pub mod Options
pub mod Slice
pub mod Read
pub mod Dispatch
pub mod Facets
pub mod Choices
pub mod Applied
pub mod Query
pub mod Kinds
pub mod Columns
pub mod Open
pub mod Write
pub mod Cached
mod Tests
pub mod Calls
pub mod Codec
pub mod Cat
pub mod Ranges
pub mod CatFile
