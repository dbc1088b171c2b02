-- ===== src/Fs/Read.antt =====
-- rust/src/fs.rs: opening a path to read it, and the DDL of a table.
use fsspec_db.Prelude.{Bool, true, false, Option, none, some, List, [], ◌++◌, length, if◌then◌else◌}
use fsspec_db.Prelude.Text.{Text, codes, join}
use fsspec_db.Prelude.Utf8.{encode}
use fsspec_db.Error.{DbError, Result, ok, err, ◌>>=◌, collect}
use fsspec_db.Path.Defs.{DataFormat, DbPathKind, DbPath}
use fsspec_db.Path.Parse.{parse}
use fsspec_db.Types.{RelationInfo, ColumnInfo, Dialect}
use fsspec_db.Sql.Parser.{SqlParser}
use fsspec_db.Sql.Statements.{quote_identifier, select_sql}
use fsspec_db.Stream.Codec.{Registry, InfoOps}
use fsspec_db.Stream.Defs.{EncodedDbFile, open_file}
use fsspec_db.Stream.Cursor.{DbFile, readable}
use fsspec_db.Fs.Database.{Database}
use fsspec_db.Fs.Infos.{relation_data_file, view_definition_file}
use fsspec_db.Fs.Options.{select_options_from_query}
use fsspec_db.Fs.Facets.{is_view}
use fsspec_db.Fs.Dispatch.{required_relation}

-- the file that is opened: read whole, or encoded as it is read
pub data OpenedFile (R : Registry) (I : InfoOps) : Type 0 where
  whole : DbFile I.FileInfo → OpenedFile R I
  encoded : EncodedDbFile R I → OpenedFile R I

abbrev pub is_sql : DataFormat → Bool
is_sql DataFormat.sql = true
is_sql _ = false

abbrev not_null_text : Bool → Text
not_null_text true = []
not_null_text false = codes " NOT NULL"

abbrev default_text : Option Text → Text
default_text none = []
default_text (some default) = codes " DEFAULT " ++ default

module _ (debug : Text → Text) where
  -- the line of one column
  unfoldable pub column_line : Dialect → ColumnInfo → Result Text
  column_line d column = do
    name ← quote_identifier debug d column.name
    ok (
        codes "  "
        ++ (name
            ++ (codes " "
                ++ (column.data_type
                    ++ (not_null_text column.nullable ++ default_text column.default)))))

  unfoldable pub table_ddl : Dialect → Text → Text → List ColumnInfo → Result Text
  table_ddl d schema relation columns = do
    lines ← collect (column_line d) columns
    schema_name ← quote_identifier debug d schema
    relation_name ← quote_identifier debug d relation
    ok (
        codes "CREATE TABLE "
        ++ (schema_name
            ++ (codes "."
                ++ (relation_name
                    ++ (codes " (\n" ++ (join (codes ",\n") lines ++ codes "\n);"))))))

  module _ {R : Registry} (I : InfoOps) (p : SqlParser) (db : Database R) where
    unfoldable pub ddl_sql : Text → Text → RelationInfo → Result Text
    ddl_sql schema relation info =
        if is_view info.kind then db.view_definition schema relation else (do
          columns ← db.list_columns schema relation
          table_ddl db.dialect schema relation columns)

    unfoldable pub open_ddl : Text → Text → RelationInfo → Result (OpenedFile R I)
    open_ddl schema relation info = do
      ddl ← ddl_sql schema relation info
      ok (
          whole (
            readable (encode ddl) (
              I.insert_extra (codes "size_known") (codes "true") (
                I.set_size (length (encode ddl))
                  (relation_data_file I db.dialect schema relation info DataFormat.sql)))))

    unfoldable pub open_select :
        Text → Text → RelationInfo → DataFormat → List (Text × Text) → Result (OpenedFile R I)
    open_select schema relation info format query = do
      options ← select_options_from_query p db.dialect query
      sql ← select_sql debug db.dialect schema relation options
      reader ← db.query sql
      file ←
          open_file {I = I} reader.0 reader.1 format
            (relation_data_file I db.dialect schema relation info format)
      ok (encoded file)

    -- the match of `open_db`
    unfoldable pub open_kind : Text → DbPath → DbPathKind → Result (OpenedFile R I)
    open_kind path parsed (DbPathKind.relation_data format) = do
      names ← required_relation parsed
      info ← db.relation_info names.0 names.1
      if is_sql format
          then open_ddl names.0 names.1 info
          else open_select names.0 names.1 info format parsed.query
    open_kind path parsed DbPathKind.view_definition = do
      names ← required_relation parsed
      definition ← db.view_definition names.0 names.1
      ok (
          whole (
            readable (encode definition)
              (view_definition_file I names.0 names.1 (length (encode definition)))))
    open_kind path parsed _ =
        err (DbError.is_a_directory (codes "path is not a readable database file: " ++ path))

    -- `open_db` for reading
    unfoldable pub open_read : Text → Result (OpenedFile R I)
    open_read path = do parsed ← parse path; open_kind path parsed parsed.kind
