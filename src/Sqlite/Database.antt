-- ===== src/Sqlite/Database.antt =====
-- rust/src/sqlite.rs: the back end as a database, and as the target of an insertion.
-- `debug` is Rust's `{:?}` of a text, `debug_type` that of the type of a cell's array, and `takes` how
-- many results a reader takes before it is dropped.
use fsspec_db.Prelude.{ℕ, List, [], map}
use fsspec_db.Prelude.Text.{Text, codes}
use fsspec_db.Error.{Result, ok, ◌>>=◌}
use fsspec_db.Types.{sqlite}
use fsspec_db.Stream.Codec.{Bytes, Item, Registry}
use fsspec_db.Fs.Write.{Field}
use fsspec_db.Fs.Database.{Database, InsertMode}
use fsspec_db.Backend.Driver.{Floats, Driver, DbValue, ArrowCell, Table, Arrow, lift, bind_value}
use fsspec_db.Backend.Write.{insert_table, clear_table}
use fsspec_db.Backend.Insert.{Target, insert}
use fsspec_db.Backend.Worker.{Decoder, stream_query}
use fsspec_db.Sqlite.Bind.{bind_arrow_value}
use fsspec_db.Sqlite.Catalogue.{
  sqlite_list_schemas, sqlite_list_relations, sqlite_table_columns, sqlite_relation_info,
  sqlite_list_columns, sqlite_list_indexes, sqlite_list_constraints, sqlite_view_definition,
}
use fsspec_db.Backend.Rows.{rows_to_batch, schema_fields}
use fsspec_db.Sqlite.Columns.{ColumnValues, sqlite_columns}

module _ {F : Floats} (D : Driver F) (debug : Text → Text) where
  module _ (debug_type : ArrowCell F → Text) where
    abbrev pub sqlite_target : Target (ArrowCell F)
    sqlite_target = record {
      Pool = D.Pool;
      Tx = D.Tx;
      relation_info = λ pool schema relation. sqlite_relation_info D debug pool schema relation;
      table_columns = λ pool schema relation. sqlite_table_columns D debug pool schema relation;
      begin = λ pool. lift (D.begin pool);
      clear = clear_table D debug sqlite (codes "DELETE FROM ");
      write = insert_table D debug sqlite (bind_arrow_value debug_type);
      commit = λ tx. (lift (D.commit tx).0, (D.commit tx).1);
    }

    unfoldable pub sqlite_insert :
        Text → Text → D.Pool → List (Item (Table (ArrowCell F))) → InsertMode → Result ℕ × D.Pool
    sqlite_insert = insert sqlite_target

  module _ {R : Registry} (A : Arrow F R) (lossy : Bytes → Text)
      (try_new : List Field → List (ColumnValues F) → Item R.Batch) where
    -- the fields of `sqlite_schema`
    unfoldable pub sqlite_schema : List (Text × Text) → List Field
    sqlite_schema = schema_fields (sqlite_columns D lossy)

    unfoldable pub sqlite_rows_to_batch : List (Text × Text) → List D.Row → Result R.Batch
    sqlite_rows_to_batch = rows_to_batch (sqlite_columns D lossy) try_new

    unfoldable pub sqlite_query_schema : D.Pool → Text → Result R.Schema
    sqlite_query_schema pool sql = do
      metadata ← lift (D.prepare pool sql)
      ok (A.new_schema (sqlite_schema metadata))

    abbrev pub sqlite_decoder : D.Pool → Text → Decoder
    sqlite_decoder pool sql = record {
      Row = D.Row;
      Metadata = List (Text × Text);
      Schema = R.Schema;
      Batch = R.Batch;
      column_metadata = D.columns;
      rows_to_batch = sqlite_rows_to_batch;
      batch_schema = A.batch_schema;
      query_schema = sqlite_query_schema pool sql;
      new_empty = A.new_empty;
    }

    -- `sqlite_stream_query`
    unfoldable pub sqlite_stream_query :
        ℕ → D.Pool → Text → List (DbValue F) → Result (R.Schema × List (Item R.Batch))
    sqlite_stream_query takes pool sql params =
        let (rows, e) = D.fetch pool sql (map bind_value params) in
        stream_query (sqlite_decoder pool sql) (codes "SQLite") rows e takes

    -- `impl Database for SqliteDatabase`, the calls that read
    unfoldable pub sqlite_database : ℕ → D.Pool → Database R
    sqlite_database takes pool = record {
      dialect = sqlite;
      list_schemas = sqlite_list_schemas D pool;
      list_relations = sqlite_list_relations D debug pool;
      list_columns = sqlite_list_columns D debug pool;
      list_indexes = sqlite_list_indexes D debug pool;
      list_constraints = sqlite_list_constraints D debug pool;
      relation_info = sqlite_relation_info D debug pool;
      view_definition = sqlite_view_definition D debug pool;
      query = λ sql. sqlite_stream_query takes pool sql [];
    }
