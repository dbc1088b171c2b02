-- ===== src/MySql/Catalogue.antt =====
-- rust/src/mysql.rs: what MySQL tells of its schemas, relations, columns, indexes and constraints.
use fsspec_db.Prelude.{
  ℕ, not, Option, none, some, List, [], ◌∷◌, ◌++◌, if◌then◌else◌, is_empty, keep,
}
use fsspec_db.Prelude.Text.{Text, codes, text_eq, split}
use fsspec_db.Prelude.Int.{is_zero}
use fsspec_db.Error.{DbError, Result, ok, err, ok_or, collect, ◌>>=◌}
use fsspec_db.Types.{
  SchemaInfo, RelationInfo, ColumnInfo, IndexInfo, ConstraintInfo, RelationKind, ConstraintKind,
}
use fsspec_db.Backend.Driver.{Floats, Driver, Value, lift}
use fsspec_db.Fs.Facets.{is_view}
use fsspec_db.MySql.Statements.{
  relation_sql, columns_sql, schemas_sql, relations_sql, indexes_sql, constraints_sql, view_sql,
}

unfoldable pub relation_kind : Text → Result RelationKind
relation_kind table_type =
    if text_eq table_type (codes "BASE TABLE")
    then ok RelationKind.table
    else if text_eq table_type (codes "VIEW")
    then ok RelationKind.view
    else err (DbError.other (codes "unknown MySQL relation type: " ++ table_type))

unfoldable pub constraint_kind : Text → Result ConstraintKind
constraint_kind constraint_type =
    if text_eq constraint_type (codes "PRIMARY KEY")
    then ok ConstraintKind.primary_key
    else if text_eq constraint_type (codes "FOREIGN KEY")
    then ok ConstraintKind.foreign_key
    else if text_eq constraint_type (codes "UNIQUE")
    then ok ConstraintKind.unique
    else if text_eq constraint_type (codes "CHECK")
    then ok ConstraintKind.check
    else err (DbError.other (codes "unknown MySQL constraint type: " ++ constraint_type))

unfoldable pub split_csv : Text → List Text
split_csv value = keep (λ item. not (is_empty item)) (split b',' value)

-- `text.as_deref().unwrap_or("")`
abbrev or_empty : Option Text → Text
or_empty none = []
or_empty (some text) = text

abbrev pub names : {F : Floats} → Text → Text → List (Value F)
names schema relation = Value.text schema ∷ Value.text relation ∷ []

module _ {F : Floats} (D : Driver F) where
  -- a column of the row that only a table, a foreign key or a check has
  abbrev row_count_of : RelationKind → D.Row → Result (Option ℕ)
  row_count_of RelationKind.table row = lift (D.get_optional_unsigned (codes "table_rows") row)
  row_count_of RelationKind.view row = ok none

  unfoldable pub relation_from_row : D.Row → Result RelationInfo
  relation_from_row row = do
    type ← lift (D.get_text (codes "table_type") row)
    kind ← relation_kind type
    row_count ← row_count_of kind row
    name ← lift (D.get_text (codes "table_name") row)
    ok (record {
      name = name;
      kind = kind;
      row_count = row_count;
      size_bytes = none;
      comment = none;
    })

  unfoldable pub column_from_row : D.Row → Result ColumnInfo
  column_from_row row = do
    nullable ← lift (D.get_text (codes "is_nullable") row)
    ordinal ← lift (D.get_unsigned (codes "ordinal_position") row)
    column_key ← lift (D.get_text (codes "column_key") row)
    name ← lift (D.get_text (codes "column_name") row)
    data_type ← lift (D.get_text (codes "column_type") row)
    default ← lift (D.get_optional_text (codes "column_default") row)
    ok (record {
      name = name;
      data_type = data_type;
      nullable = text_eq nullable (codes "YES");
      default = default;
      ordinal = ordinal;
      primary_key = text_eq column_key (codes "PRI");
      comment = none;
    })

  unfoldable pub index_from_row : D.Row → Result IndexInfo
  index_from_row row = do
    columns ← lift (D.get_optional_text (codes "columns") row)
    non_unique ← lift (D.get_int (codes "non_unique") row)
    name ← lift (D.get_text (codes "index_name") row)
    method ← lift (D.get_optional_text (codes "index_type") row)
    ok (record {
      name = name;
      columns = split_csv (or_empty columns);
      unique = is_zero non_unique;
      method = method;
    })

  abbrev references_of : ConstraintKind → D.Row → Result (Option Text)
  references_of ConstraintKind.foreign_key row =
      lift (D.get_optional_text (codes "referenced_relation") row)
  references_of _ row = ok none

  abbrev expr_of : ConstraintKind → D.Row → Result (Option Text)
  expr_of ConstraintKind.check row = lift (D.get_optional_text (codes "check_clause") row)
  expr_of _ row = ok none

  unfoldable pub constraint_from_row : D.Row → Result ConstraintInfo
  constraint_from_row row = do
    type ← lift (D.get_text (codes "constraint_type") row)
    kind ← constraint_kind type
    references ← references_of kind row
    expr ← expr_of kind row
    columns ← lift (D.get_text (codes "columns") row)
    name ← lift (D.get_text (codes "constraint_name") row)
    ok (record {
      name = name;
      kind = kind;
      columns = split_csv columns;
      references = references;
      expr = expr;
    })

  unfoldable pub schema_from_row : D.Row → Result SchemaInfo
  schema_from_row row = do
    name ← lift (D.get_text (codes "schema_name") row)
    ok (record { name = name; catalog = none; comment = none })

  module _ (pool : D.Pool) where
    unfoldable pub mysql_list_schemas : Result (List SchemaInfo)
    mysql_list_schemas = do
      rows ← lift (D.fetch_all pool schemas_sql [])
      collect schema_from_row rows

    unfoldable pub mysql_list_relations : Text → Result (List RelationInfo)
    mysql_list_relations schema = do
      rows ← lift (D.fetch_all pool relations_sql (Value.text schema ∷ []))
      collect relation_from_row rows

    unfoldable pub mysql_relation_info : Text → Text → Result RelationInfo
    mysql_relation_info schema relation = do
      found ← lift (D.fetch_optional pool relation_sql (names schema relation))
      row ←
          ok_or found (
            DbError.not_found (codes "relation not found: " ++ (schema ++ (codes "." ++ relation))))
      relation_from_row row

    unfoldable pub mysql_table_columns : Text → Text → Result (List ColumnInfo)
    mysql_table_columns schema relation = do
      rows ← lift (D.fetch_all pool columns_sql (names schema relation))
      collect column_from_row rows

    unfoldable pub mysql_list_columns : Text → Text → Result (List ColumnInfo)
    mysql_list_columns schema relation = do
      info ← mysql_relation_info schema relation
      mysql_table_columns schema relation

    unfoldable pub mysql_list_indexes : Text → Text → Result (List IndexInfo)
    mysql_list_indexes schema relation = do
      info ← mysql_relation_info schema relation
      rows ← lift (D.fetch_all pool indexes_sql (names schema relation))
      collect index_from_row rows

    unfoldable pub mysql_list_constraints : Text → Text → Result (List ConstraintInfo)
    mysql_list_constraints schema relation = do
      info ← mysql_relation_info schema relation
      rows ← lift (D.fetch_all pool constraints_sql (names schema relation))
      collect constraint_from_row rows

    unfoldable pub mysql_view_definition : Text → Text → Result Text
    mysql_view_definition schema view = do
      info ← mysql_relation_info schema view
      if is_view info.kind
          then (do
            row ← lift (D.fetch_one pool view_sql (names schema view))
            lift (D.get_text (codes "view_definition") row))
          else err (
              DbError.invalid_argument
                (codes "relation is not a view: " ++ (schema ++ (codes "." ++ view))))
