-- ===== src/MySql/Database.antt =====
-- rust/src/mysql.rs: the back end as a database, and as the target of an insertion.
-- `debug` is Rust's `{:?}` of a text, `debug_type` that of the type of a cell's array, and `takes` how
-- many results a reader takes before it is dropped.
use fsspec_db.Prelude.{ℕ, List, [], map}
use fsspec_db.Prelude.Text.{Text, codes}
use fsspec_db.Error.{Result, ok, ◌>>=◌}
use fsspec_db.Types.{my_sql}
use fsspec_db.Stream.Codec.{Item, Registry}
use fsspec_db.Fs.Write.{Field}
use fsspec_db.Fs.Database.{Database, InsertMode}
use fsspec_db.Backend.Driver.{Floats, Driver, DbValue, ArrowCell, Table, Arrow, lift, bind_value}
use fsspec_db.Backend.Write.{insert_table, clear_table}
use fsspec_db.Backend.Insert.{Target, insert}
use fsspec_db.Backend.Worker.{Decoder, stream_query}
use fsspec_db.MySql.Bind.{bind_arrow_value}
use fsspec_db.MySql.Catalogue.{
  mysql_list_schemas, mysql_list_relations, mysql_table_columns, mysql_relation_info,
  mysql_list_columns, mysql_list_indexes, mysql_list_constraints, mysql_view_definition,
}
use fsspec_db.Backend.Rows.{rows_to_batch, schema_fields}
use fsspec_db.MySql.Columns.{ColumnValues, mysql_columns}

module _ {F : Floats} (D : Driver F) (debug : Text → Text) where
  module _ (debug_type : ArrowCell F → Text) where
    abbrev pub mysql_target : Target (ArrowCell F)
    mysql_target = record {
      Pool = D.Pool;
      Tx = D.Tx;
      relation_info = λ pool schema relation. mysql_relation_info D pool schema relation;
      table_columns = λ pool schema relation. mysql_table_columns D pool schema relation;
      begin = λ pool. lift (D.begin pool);
      clear = clear_table D debug my_sql (codes "DELETE FROM ");
      write = insert_table D debug my_sql (bind_arrow_value debug_type);
      commit = λ tx. (lift (D.commit tx).0, (D.commit tx).1);
    }

    unfoldable pub mysql_insert :
        Text → Text → D.Pool → List (Item (Table (ArrowCell F))) → InsertMode → Result ℕ × D.Pool
    mysql_insert = insert mysql_target

  module _ {R : Registry} (A : Arrow F R)
      (try_new : List Field → List (ColumnValues F) → Item R.Batch) where
    -- the fields of `mysql_schema`
    unfoldable pub mysql_schema : List (Text × Text) → List Field
    mysql_schema = schema_fields (mysql_columns D)

    unfoldable pub mysql_rows_to_batch : List (Text × Text) → List D.Row → Result R.Batch
    mysql_rows_to_batch = rows_to_batch (mysql_columns D) try_new

    unfoldable pub mysql_query_schema : D.Pool → Text → Result R.Schema
    mysql_query_schema pool sql = do
      metadata ← lift (D.prepare pool sql)
      ok (A.new_schema (mysql_schema metadata))

    abbrev pub mysql_decoder : D.Pool → Text → Decoder
    mysql_decoder pool sql = record {
      Row = D.Row;
      Metadata = List (Text × Text);
      Schema = R.Schema;
      Batch = R.Batch;
      column_metadata = D.columns;
      rows_to_batch = mysql_rows_to_batch;
      batch_schema = A.batch_schema;
      query_schema = mysql_query_schema pool sql;
      new_empty = A.new_empty;
    }

    -- `mysql_stream_query`
    unfoldable pub mysql_stream_query :
        ℕ → D.Pool → Text → List (DbValue F) → Result (R.Schema × List (Item R.Batch))
    mysql_stream_query takes pool sql params =
        let (rows, e) = D.fetch pool sql (map bind_value params) in
        stream_query (mysql_decoder pool sql) (codes "MySQL") rows e takes

    -- `impl Database for MySqlDatabase`, the calls that read
    unfoldable pub mysql_database : ℕ → D.Pool → Database R
    mysql_database takes pool = record {
      dialect = my_sql;
      list_schemas = mysql_list_schemas D pool;
      list_relations = mysql_list_relations D pool;
      list_columns = mysql_list_columns D pool;
      list_indexes = mysql_list_indexes D pool;
      list_constraints = mysql_list_constraints D pool;
      relation_info = mysql_relation_info D pool;
      view_definition = mysql_view_definition D pool;
      query = λ sql. mysql_stream_query takes pool sql [];
    }
