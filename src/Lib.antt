-- ===== src/Lib.antt =====
-- fsspec-db presents a database as a file system: schemas are directories, relations are directories
-- and data files, and columns, indexes, constraints and dependencies are metadata files. This library
-- models the Rust crate under rust/src.
--
-- Prelude: native numbers, lists, texts as lists of Unicode scalar values, UTF-8 with lossy decoding,
--   decimal numbers. `u64` and `usize` have 64 bits.
-- Error (rust/src/error.rs): DbError, the results of fallible code, and the conversions of errors.
-- Types (rust/src/types.rs): what a database tells of its schemas, relations and columns.
-- Path (rust/src/path.rs): `Path.Defs` the data, `Path.Query` the query string and percent decoding,
--   `Path.Parse` DbPath::parse, `Path.Print` to_path and the paths of single objects. Parsing and
--   printing do not loop but by recursion on the text.
-- Sql (rust/src/sql.rs): `Sql.Statements` quoting, SELECT and INSERT, over a parameter for `{:?}`;
--   `Sql.Parser` what calls the sqlparser crate, which is a parameter, the record SqlParser.
-- Cache (rust/src/fs.rs, IntrospectionCache): the map as an association list, the order of use as a
--   list, the clock as a number. The eviction loop is recursion on the order of use; where that is
--   empty and the map still too large, the code would loop for ever, which is `none`.
-- Stream (rust/src/stream.rs and rust/src/file.rs): `Stream.Codec` the interfaces of the codec
--   registry and of FileInfo, which other crates define; `Stream.Defs` EncodedDbFile, whose reader is
--   the list of the items it will give, so that fill_until is recursion on it; `Stream.Cursor` DbFile.
-- Fs (rust/src/fs.rs and rust/src/database.rs): `Fs.Database` the Database trait as an interface, and
--   the pool options; `Fs.Infos` the file information; `Fs.Facets` and `Fs.Dispatch` ls_db and
--   info_db; `Fs.Read` opening for reading and DDL; `Fs.Options` query options; `Fs.Slice` ranges;
--   `Fs.Write` write_bytes and the cached ls, over a database with a state, the record Store;
--   `Fs.Cat` and `Fs.CatFile` cat_file, where the standard library chooses how much it reads at
--   once, which is a parameter, and fuel above the bytes of the file is enough (`Fs.Ranges`);
--   `Fs.Calls` the other calls, and opening for writing, by the closure that the buffered file of
--   fsspec_rs uploads with; `Fs.Errors` the errors of the file system; `Fs.Codec` rust/src/codec.rs.
-- Backend (rust/src/sqlite.rs, rust/src/mysql.rs, rust/src/postgres.rs, and DbValue and
--   ChannelRecordBatchReader of rust/src/database.rs): what the three back ends share.
--   `Backend.Driver` sqlx, Arrow's cells and floating-point numbers as parameters; `Backend.Rows`
--   rows_to_batch over a back end's ColumnValues; `Backend.Insert` insert, over a record Target for
--   what differs; `Backend.Write` the INSERT of a batch; `Backend.Worker` the streamed query: the
--   thread is a recursion on the rows to come, with the channels as its state, and the reader's
--   patience a number. The three sources are alike but for names there; the map takes the lines of
--   sqlite.rs for the shared definitions.
-- Sqlite, MySql, Postgres: `Catalogue` (in Postgres `Relations`, with the words of the catalogue in
--   `Catalogue`) the schemas, relations, columns, indexes and constraints; `Columns` ColumnValues;
--   `Bind` the values of an INSERT, and `Postgres.Copy` the COPY statement and its data, over a
--   parameter for what csv_core writes; `Statements` the SQL of the catalogue; `Database` the back end
--   as a Database and as a Target.
--
-- Python (rust/python/database.rs, rust/python/types.rs): `Python.Errors` exceptions and words,
--   `Python.Objects` and `Python.Infos` the dictionaries and `Python.Params` the parameters of a
--   query, over the values of PyO3 as a parameter, and `Python.File` the
--   file object, over a parameter for the file that it holds.
--
-- The parts use one another as the crate does: Fs parses with Path, asks the Database, builds text
-- with Sql, and opens a Stream over the rows. Locks are not poisoned, and one operation runs at a
-- time. Not modelled: opening a pool
-- and its runtime, what sqlx, Arrow, chrono, PyO3 and the servers do, the wrappers of the
-- Python bindings that only pass calls on, and the Python adapters. A number of the back ends is an
-- integer without bound where it only passes through; conversions that change or refuse one are
-- written out.
mod Prelude
pub mod Error
pub mod Types
pub mod Path
pub mod Sql
pub mod Cache
pub mod Stream
pub mod Fs
pub mod Backend
pub mod Sqlite
pub mod MySql
pub mod Postgres
pub mod Python
