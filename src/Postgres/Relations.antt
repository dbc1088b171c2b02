-- ===== src/Postgres/Relations.antt =====
-- rust/src/postgres.rs: what Postgres tells of its schemas, relations, columns, indexes and constraints.
use fsspec_db.Prelude.{ℕ, Option, none, some, List, [], ◌∷◌, ◌++◌, if◌then◌else◌}
use fsspec_db.Prelude.Text.{Text, codes, text_eq, member}
use fsspec_db.Prelude.Int.{ℤ, as_unsigned, to_unsigned}
use fsspec_db.Error.{DbError, Result, ok, err, ok_or, collect, ◌>>=◌}
use fsspec_db.Types.{
  SchemaInfo, RelationInfo, ColumnInfo, IndexInfo, ConstraintInfo, RelationKind, ConstraintKind,
}
use fsspec_db.Backend.Driver.{Floats, Driver, Value, lift}
use fsspec_db.Fs.Facets.{is_view}
use fsspec_db.Postgres.Catalogue.{relation_kind, constraint_kind, split_csv}
use fsspec_db.Postgres.Statements.{
  relation_sql, columns_sql, schemas_sql, relations_sql, indexes_sql, constraints_sql, view_sql,
  primary_keys_sql, estimate_sql,
}

-- `estimate.and_then(|value| u64::try_from(value).ok())`
abbrev count_of : Option ℤ → Option ℕ
count_of none = none
count_of (some estimate) = to_unsigned estimate

abbrev pub names : {F : Floats} → Text → Text → List (Value F)
names schema relation = Value.text schema ∷ Value.text relation ∷ []

module _ {F : Floats} (D : Driver F) where
  abbrev row_count_of : RelationKind → D.Row → Result (Option ℕ)
  row_count_of RelationKind.table row = do
    estimate ← lift (D.get_optional_int (codes "row_count") row)
    ok (count_of estimate)
  row_count_of RelationKind.view row = ok none

  -- the loop body of `list_relations`
  unfoldable pub relation_from_row : D.Row → Result RelationInfo
  relation_from_row row = do
    name ← lift (D.get_text (codes "table_name") row)
    type ← lift (D.get_text (codes "table_type") row)
    kind ← relation_kind type
    row_count ← row_count_of kind row
    ok (record {
      name = name;
      kind = kind;
      row_count = row_count;
      size_bytes = none;
      comment = none;
    })

  -- a type of the user's is told by its own name
  unfoldable pub column_from_row : List Text → D.Row → Result ColumnInfo
  column_from_row primary_keys row = do
    name ← lift (D.get_text (codes "column_name") row)
    data_type ← lift (D.get_text (codes "data_type") row)
    udt_name ← lift (D.get_text (codes "udt_name") row)
    nullable ← lift (D.get_text (codes "is_nullable") row)
    ordinal ← lift (D.get_int (codes "ordinal_position") row)
    default ← lift (D.get_optional_text (codes "column_default") row)
    ok (record {
      name = name;
      data_type = if text_eq data_type (codes "USER-DEFINED") then udt_name else data_type;
      nullable = text_eq nullable (codes "YES");
      default = default;
      ordinal = as_unsigned 32 ordinal;
      primary_key = member name primary_keys;
      comment = none;
    })

  unfoldable pub index_from_row : D.Row → Result IndexInfo
  index_from_row row = do
    columns ← lift (D.get_text (codes "columns") row)
    name ← lift (D.get_text (codes "name") row)
    unique ← lift (D.get_flag (codes "is_unique") row)
    method ← lift (D.get_optional_text (codes "method") row)
    ok (record { name = name; columns = split_csv columns; unique = unique; method = method })

  abbrev references_of : ConstraintKind → D.Row → Result (Option Text)
  references_of ConstraintKind.foreign_key row = lift (D.get_optional_text (codes "references") row)
  references_of _ row = ok none

  abbrev expr_of : ConstraintKind → D.Row → Result (Option Text)
  expr_of ConstraintKind.check row = lift (D.get_optional_text (codes "check_clause") row)
  expr_of _ row = ok none

  unfoldable pub constraint_from_row : D.Row → Result ConstraintInfo
  constraint_from_row row = do
    type ← lift (D.get_text (codes "constraint_type") row)
    kind ← constraint_kind type
    references ← references_of kind row
    expr ← expr_of kind row
    columns ← lift (D.get_text (codes "columns") row)
    name ← lift (D.get_text (codes "constraint_name") row)
    ok (record {
      name = name;
      kind = kind;
      columns = split_csv columns;
      references = references;
      expr = expr;
    })

  unfoldable pub schema_from_row : D.Row → Result SchemaInfo
  schema_from_row row = do
    name ← lift (D.get_text (codes "schema_name") row)
    ok (record { name = name; catalog = none; comment = none })

  module _ (pool : D.Pool) where
    unfoldable pub postgres_list_schemas : Result (List SchemaInfo)
    postgres_list_schemas = do
      rows ← lift (D.fetch_all pool schemas_sql [])
      collect schema_from_row rows

    unfoldable pub postgres_list_relations : Text → Result (List RelationInfo)
    postgres_list_relations schema = do
      rows ← lift (D.fetch_all pool relations_sql (Value.text schema ∷ []))
      collect relation_from_row rows

    -- the row of `relation_row_count`, where the relation has one
    abbrev estimate_from : Option D.Row → Result (Option ℕ)
    estimate_from none = ok none
    estimate_from (some row) = do
      estimate ← lift (D.get_int (codes "estimate") row)
      ok (to_unsigned estimate)

    unfoldable pub relation_row_count : Text → Text → RelationKind → Result (Option ℕ)
    relation_row_count schema relation RelationKind.view = ok none
    relation_row_count schema relation RelationKind.table = do
      found ← lift (D.fetch_optional pool estimate_sql (names schema relation))
      estimate_from found

    unfoldable pub postgres_relation_info : Text → Text → Result RelationInfo
    postgres_relation_info schema relation = do
      found ← lift (D.fetch_optional pool relation_sql (names schema relation))
      row ←
          ok_or found (
            DbError.not_found (codes "relation not found: " ++ (schema ++ (codes "." ++ relation))))
      name ← lift (D.get_text (codes "table_name") row)
      type ← lift (D.get_text (codes "table_type") row)
      kind ← relation_kind type
      row_count ← relation_row_count schema name kind
      ok (record {
        name = name;
        kind = kind;
        row_count = row_count;
        size_bytes = none;
        comment = none;
      })

    unfoldable pub primary_key_columns : Text → Text → Result (List Text)
    primary_key_columns schema relation = do
      rows ← lift (D.fetch_all pool primary_keys_sql (names schema relation))
      collect (λ row. lift (D.get_text (codes "column_name") row)) rows

    unfoldable pub postgres_table_columns : Text → Text → Result (List ColumnInfo)
    postgres_table_columns schema relation = do
      primary_keys ← primary_key_columns schema relation
      rows ← lift (D.fetch_all pool columns_sql (names schema relation))
      collect (column_from_row primary_keys) rows

    unfoldable pub postgres_list_columns : Text → Text → Result (List ColumnInfo)
    postgres_list_columns schema relation = do
      info ← postgres_relation_info schema relation
      postgres_table_columns schema relation

    unfoldable pub postgres_list_indexes : Text → Text → Result (List IndexInfo)
    postgres_list_indexes schema relation = do
      info ← postgres_relation_info schema relation
      rows ← lift (D.fetch_all pool indexes_sql (names schema relation))
      collect index_from_row rows

    unfoldable pub postgres_list_constraints : Text → Text → Result (List ConstraintInfo)
    postgres_list_constraints schema relation = do
      info ← postgres_relation_info schema relation
      rows ← lift (D.fetch_all pool constraints_sql (names schema relation))
      collect constraint_from_row rows

    unfoldable pub postgres_view_definition : Text → Text → Result Text
    postgres_view_definition schema view = do
      info ← postgres_relation_info schema view
      if is_view info.kind
          then (do
            row ← lift (D.fetch_one pool view_sql (names schema view))
            lift (D.get_text (codes "view_definition") row))
          else err (
              DbError.invalid_argument
                (codes "relation is not a view: " ++ (schema ++ (codes "." ++ view))))
