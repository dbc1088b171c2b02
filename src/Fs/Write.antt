-- ===== src/Fs/Write.antt =====
-- rust/src/fs.rs: writing, which goes around the cache or clears it, and the cached calls.
use fsspec_db.Prelude.{ℕ, Bool, Option, none, some, List, ◌++◌, map, if◌then◌else◌}
use fsspec_db.Prelude.Text.{Text, codes}
use fsspec_db.Error.{DbError, Result, ok, err, ◌>>=◌}
use fsspec_db.Path.Defs.{DataFormat, DbPathKind}
use fsspec_db.Path.Parse.{parse}
use fsspec_db.Types.{ColumnInfo}
use fsspec_db.Sql.Parser.{SqlParser}
use fsspec_db.Cache.Defs.{IntrospectionCache, get, insert, clear}
use fsspec_db.Stream.Codec.{Bytes, Item, Registry, InfoOps}
use fsspec_db.Fs.Database.{InsertMode, Database}
use fsspec_db.Fs.Options.{DataType, arrow_type_for_database_type}
use fsspec_db.Fs.Errors.{FsResult, failed, done, from_db}
use fsspec_db.Fs.Facets.{is_view}
use fsspec_db.Fs.Dispatch.{required_relation, ls_db}
use fsspec_db.Fs.Read.{is_sql}

-- `Field::new`
pub record Field : Type 0 where
  pub name : Text
  pub data_type : DataType
  pub nullable : Bool

-- The readers of written bytes, which are the codecs', and a database that changes: what it tells in
-- a state, and an insertion, which may change the state also where it fails.
pub record Store (R : Registry) : Type 1 where
  pub State : Type 0
  pub told : State → Database R
  pub new_schema : List Field → R.Schema
  pub parquet_to_arrow : Bytes → Result (R.Schema × List (Item R.Batch))
  pub ipc_to_arrow : Bytes → Result (R.Schema × List (Item R.Batch))
  pub csv_to_arrow : Bytes → R.Schema → Result (R.Schema × List (Item R.Batch))
  pub jsonl_to_arrow : Bytes → R.Schema → Result (R.Schema × List (Item R.Batch))
  pub insert_rows :
      Text → Text → R.Schema × List (Item R.Batch) → InsertMode → State → Result ℕ × State

-- the guards of a write, on the kind of the path
unfoldable pub write_format : Text → DbPathKind → Result DataFormat
write_format path (DbPathKind.relation_data format) =
    if is_sql format
    then err (DbError.not_supported (codes "database DDL writes are not supported yet"))
    else ok format
write_format path _ =
    err (DbError.invalid_argument (codes "database writes require a relation data path: " ++ path))

module _ {R : Registry} (S : Store R) where
  unfoldable pub arrow_schema : Database R → Text → Text → Result R.Schema
  arrow_schema db schema relation = do
    columns ← db.list_columns schema relation
    ok (
        S.new_schema (
          map
            (λ (column : ColumnInfo). record {
              name = column.name;
              data_type = arrow_type_for_database_type column.data_type;
              nullable = column.nullable;
            })
            columns))

  -- the schema and the relation that a write goes to, and its format
  unfoldable pub write_target : Database R → Text → Result ((Text × Text) × DataFormat)
  write_target db path = do
    parsed ← parse path
    format ← write_format path parsed.kind
    names ← required_relation parsed
    info ← db.relation_info names.0 names.1
    if is_view info.kind
        then err (DbError.not_supported (codes "database writes require a table path: " ++ path))
        else ok (names, format)

  -- the match on the format, which `write_target` has kept from the unreachable case
  unfoldable pub read_rows :
      Database R → Text × Text → DataFormat → Bytes → Result (R.Schema × List (Item R.Batch))
  read_rows db names DataFormat.parquet bytes = S.parquet_to_arrow bytes
  read_rows db names DataFormat.arrow bytes = S.ipc_to_arrow bytes
  read_rows db names DataFormat.csv bytes = do
    schema ← arrow_schema db names.0 names.1
    S.csv_to_arrow bytes schema
  read_rows db names DataFormat.jsonl bytes = do
    schema ← arrow_schema db names.0 names.1
    S.jsonl_to_arrow bytes schema
  read_rows db names DataFormat.sql bytes =
      err (DbError.other (codes "internal error: entered unreachable code"))

  unfoldable pub rows_to_write :
      Database R → Text → Bytes → Result ((Text × Text) × (R.Schema × List (Item R.Batch)))
  rows_to_write db path bytes = do
    target ← write_target db path
    rows ← read_rows db target.0 target.1 bytes
    ok (target.0, rows)

  unfoldable pub write_bytes_to_database : Text → Bytes → InsertMode → S.State → Result ℕ × S.State
  write_bytes_to_database path bytes mode s = elim (rows_to_write (S.told s) path bytes) [
    | err e ↦ (err e, s)
    | ok write ↦ S.insert_rows write.0.0 write.0.1 write.1 mode s
  ]

-- `CachedIntrospection`
pub data CachedIntrospection (Info : Type 0) : Type 0 where
  listing : List Info → CachedIntrospection Info
  info : Info → CachedIntrospection Info

-- `DatabaseFs`, with the state of its database
pub record DatabaseFs {R : Registry} (S : Store R) (I : InfoOps) : Type 0 where
  pub state : S.State
  pub cache : IntrospectionCache (CachedIntrospection I.FileInfo)

-- a cached listing, if there is one
unfoldable pub cached_listing :
    {Info : Type 0} → Option (CachedIntrospection Info) → Option (List Info)
cached_listing (some (listing entries)) = some entries
cached_listing _ = none

abbrev pub ls_key : Text → Text
ls_key path = codes "ls:" ++ path

module _ {R : Registry} {S : Store R} {I : InfoOps} where
  -- `write_bytes`
  unfoldable pub write_bytes :
      Text → Bytes → InsertMode → DatabaseFs S I → Result ℕ × DatabaseFs S I
  write_bytes path bytes mode fs =
      let out = write_bytes_to_database S path bytes mode fs.state in
      elim out.0 [
        | err e ↦ (err e, record fs { state = out.1 })
        | ok written ↦ (ok written, record { state = out.1; cache = clear fs.cache })
      ]

  -- `ls` behind the look into the cache; `none` if the insertion did not end
  unfoldable pub ls_fresh :
      SqlParser → ℕ → Text → DatabaseFs S I → Option (FsResult (List I.FileInfo) × DatabaseFs S I)
  ls_fresh p now path fs = elim (ls_db I p (S.told fs.state) path) [
    | err e ↦ some (failed (from_db e), fs)
    | ok entries ↦ elim (insert now (ls_key path) (listing entries) fs.cache) [
      | none ↦ none
      | some cache ↦ some (done entries, record fs { cache = cache })
    ]
  ]

  -- `ls`, at a reading of the clock
  unfoldable pub ls :
      SqlParser → ℕ → Text → DatabaseFs S I → Option (FsResult (List I.FileInfo) × DatabaseFs S I)
  ls p now path fs =
      let found = get now (ls_key path) fs.cache in
      let fs' = record fs { cache = found.1 } in
      elim (cached_listing found.0) [
        | some entries ↦ some (done entries, fs')
        | none ↦ ls_fresh p now path fs'
      ]
