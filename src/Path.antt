-- ===== src/Path.antt =====
-- rust/src/path.rs: the paths of the database file system, their parser and their printer.
-- `Defs` has the data, `Query` and `Parse` the parser, `Print` the printer.
pub mod Defs
pub mod Query
pub mod Parse
pub mod Print
pub mod Parts
pub mod Names
pub mod Spelling
pub mod Percent
pub mod RoundTrip
pub mod WellFormed
pub mod Protocol
pub mod Tests
