-- ===== src/Postgres/Database.antt =====
-- rust/src/postgres.rs: the back end as a database, and as the target of an insertion.
-- `debug` is Rust's `{:?}` of a text, `escaped_field` what `csv_core` writes for a quoted field, and `takes` how
-- many results a reader takes before it is dropped.
use fsspec_db.Prelude.{ℕ, List, [], map}
use fsspec_db.Prelude.Text.{Text, codes}
use fsspec_db.Error.{Result, ok, ◌>>=◌}
use fsspec_db.Types.{postgres}
use fsspec_db.Stream.Codec.{Bytes, Item, Registry}
use fsspec_db.Fs.Write.{Field}
use fsspec_db.Fs.Database.{Database, InsertMode}
use fsspec_db.Backend.Driver.{Floats, Driver, DbValue, Table, Arrow, lift, bind_value}
use fsspec_db.Backend.Write.{clear_table}
use fsspec_db.Backend.Insert.{Target, insert}
use fsspec_db.Backend.Worker.{Decoder, stream_query}
use fsspec_db.Postgres.Copy.{Cell, copy_in_sql, batch_to_copy_csv}
use fsspec_db.Postgres.Relations.{
  postgres_list_schemas, postgres_list_relations, postgres_table_columns, postgres_relation_info,
  postgres_list_columns, postgres_list_indexes, postgres_list_constraints, postgres_view_definition,
}
use fsspec_db.Backend.Rows.{rows_to_batch, schema_fields}
use fsspec_db.Postgres.Columns.{ColumnValues, postgres_columns}

module _ {F : Floats} (D : Driver F) (debug : Text → Text) where
  module _ (escaped_field : Bytes → Bytes) where
    -- a batch goes by COPY
    unfoldable pub postgres_write : Text → Text → Table Cell → D.Tx → Result (ℕ × D.Tx)
    postgres_write schema relation table tx = do
      sql ← copy_in_sql debug schema relation table.columns
      bytes ← batch_to_copy_csv escaped_field table.rows
      lift (D.copy_in sql bytes tx)

    abbrev pub postgres_target : Target (Cell)
    postgres_target = record {
      Pool = D.Pool;
      Tx = D.Tx;
      relation_info = λ pool schema relation. postgres_relation_info D pool schema relation;
      table_columns = λ pool schema relation. postgres_table_columns D pool schema relation;
      begin = λ pool. lift (D.begin pool);
      clear = clear_table D debug postgres (codes "TRUNCATE TABLE ");
      write = postgres_write;
      commit = λ tx. (lift (D.commit tx).0, (D.commit tx).1);
    }

    unfoldable pub postgres_insert :
        Text → Text → D.Pool → List (Item (Table (Cell))) → InsertMode → Result ℕ × D.Pool
    postgres_insert = insert postgres_target

  module _ {R : Registry} (A : Arrow F R)
      (try_new : List Field → List (ColumnValues F) → Item R.Batch) where
    -- the fields of `postgres_schema`
    unfoldable pub postgres_schema : List (Text × Text) → List Field
    postgres_schema = schema_fields (postgres_columns D)

    unfoldable pub postgres_rows_to_batch : List (Text × Text) → List D.Row → Result R.Batch
    postgres_rows_to_batch = rows_to_batch (postgres_columns D) try_new

    unfoldable pub postgres_query_schema : D.Pool → Text → Result R.Schema
    postgres_query_schema pool sql = do
      metadata ← lift (D.prepare pool sql)
      ok (A.new_schema (postgres_schema metadata))

    abbrev pub postgres_decoder : D.Pool → Text → Decoder
    postgres_decoder pool sql = record {
      Row = D.Row;
      Metadata = List (Text × Text);
      Schema = R.Schema;
      Batch = R.Batch;
      column_metadata = D.columns;
      rows_to_batch = postgres_rows_to_batch;
      batch_schema = A.batch_schema;
      query_schema = postgres_query_schema pool sql;
      new_empty = A.new_empty;
    }

    -- `postgres_stream_query`
    unfoldable pub postgres_stream_query :
        ℕ → D.Pool → Text → List (DbValue F) → Result (R.Schema × List (Item R.Batch))
    postgres_stream_query takes pool sql params =
        let (rows, e) = D.fetch pool sql (map bind_value params) in
        stream_query (postgres_decoder pool sql) (codes "Postgres") rows e takes

    -- `impl Database for PostgresDatabase`, the calls that read
    unfoldable pub postgres_database : ℕ → D.Pool → Database R
    postgres_database takes pool = record {
      dialect = postgres;
      list_schemas = postgres_list_schemas D pool;
      list_relations = postgres_list_relations D pool;
      list_columns = postgres_list_columns D pool;
      list_indexes = postgres_list_indexes D pool;
      list_constraints = postgres_list_constraints D pool;
      relation_info = postgres_relation_info D pool;
      view_definition = postgres_view_definition D pool;
      query = λ sql. postgres_stream_query takes pool sql [];
    }
