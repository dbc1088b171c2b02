-- ===== src/Sqlite/Catalogue.antt =====
-- rust/src/sqlite.rs: what SQLite tells of its schemas, relations, columns, indexes and constraints.
-- `debug` is Rust's `{:?}` of a text.
use fsspec_db.Prelude.{
  ℕ, not, Option, none, some, List, [], ◌∷◌, ◌++◌, map, keep, is_empty, if◌then◌else◌,
}
use fsspec_db.Prelude.Text.{Text, codes, text_eq, strip_prefix}
use fsspec_db.Prelude.Int.{ℤ, is_zero, is_positive, succ, as_unsigned, int_leb, print_int}
use fsspec_db.Prelude.{is_some}
use fsspec_db.Error.{DbError, Result, ok, err, ok_or, collect, ◌>>=◌}
use fsspec_db.Types.{
  SchemaInfo, RelationInfo, ColumnInfo, IndexInfo, ConstraintInfo, RelationKind, ConstraintKind,
  sqlite,
}
use fsspec_db.Backend.Driver.{Floats, Driver, Value, lift}
use fsspec_db.Sql.Statements.{quote_identifier}
use fsspec_db.Fs.Facets.{is_view}

-- the `match` on the type of a relation
unfoldable pub sqlite_kind : Text → Result RelationKind
sqlite_kind kind =
    if text_eq kind (codes "table")
    then ok RelationKind.table
    else if text_eq kind (codes "view")
    then ok RelationKind.view
    else err (DbError.other (codes "unknown sqlite relation type: " ++ kind))

-- `sqlite_options`, the URL that sqlx is given
unfoldable pub sqlite_url : Text → Text
sqlite_url source =
    if text_eq source (codes ":memory:")
    then codes "sqlite::memory:"
    else if is_some (strip_prefix (codes "sqlite:") source)
    then source
    else codes "sqlite://" ++ source

-- a `BTreeMap` from `i64` as a list by rising keys: `entry(id).or_insert((table, [])).1.push(item)`
abbrev pub Group : Type 0
Group = ℤ × (Text × List (ℤ × Text))

unfoldable pub add_to_group : ℤ → Text → ℤ × Text → List Group → List Group
add_to_group id table item [] = (id, (table, item ∷ [])) ∷ []
add_to_group id table item ((key, group) ∷ groups) =
    let rest = add_to_group id table item groups in
    if int_leb key id
    then (if int_leb id key
        then (key, (group.0, group.1 ++ item ∷ [])) ∷ groups
        else (key, group) ∷ rest)
    else (id, (table, item ∷ [])) ∷ (key, group) ∷ groups

-- `columns.sort_by_key(|(seq, _)| *seq)`, which keeps the order of equal keys
unfoldable pub insert_by_seq : ℤ × Text → List (ℤ × Text) → List (ℤ × Text)
insert_by_seq item [] = item ∷ []
insert_by_seq item (other ∷ items) =
    let rest = insert_by_seq item items in
    if int_leb item.0 other.0 then item ∷ other ∷ items else other ∷ rest

unfoldable pub sort_by_seq : List (ℤ × Text) → List (ℤ × Text)
sort_by_seq [] = []
sort_by_seq (item ∷ items) = insert_by_seq item (sort_by_seq items)

abbrev fk_constraint : Text → Group → ConstraintInfo
fk_constraint relation (id, (table, columns)) = record {
  name = codes "fk_" ++ (relation ++ (codes "_" ++ print_int id));
  kind = ConstraintKind.foreign_key;
  columns = map (λ (item : ℤ × Text). item.1) (sort_by_seq columns);
  references = some table;
  expr = none;
}

-- the primary key of the columns, if there is one
unfoldable pub pk_constraints : Text → List ColumnInfo → List ConstraintInfo
pk_constraints relation columns =
    let names =
      map (λ (column : ColumnInfo). column.name)
        (keep (λ (column : ColumnInfo). column.primary_key) columns) in
    if is_empty names
    then []
    else record {
      name = codes "pk_" ++ relation;
      kind = ConstraintKind.primary_key;
      columns = names;
      references = none;
      expr = none;
    }
      ∷ []

module _ {F : Floats} (D : Driver F) where
  unfoldable pub schema_from_row : D.Row → Result SchemaInfo
  schema_from_row row = do
    name ← lift (D.get_text (codes "name") row)
    ok (record { name = name; catalog = none; comment = none })

  unfoldable pub sqlite_list_schemas : D.Pool → Result (List SchemaInfo)
  sqlite_list_schemas pool = do
    rows ← lift (D.fetch_all pool (codes "PRAGMA database_list") [])
    collect schema_from_row rows

  unfoldable pub sqlite_relation : Option ℕ → D.Row → Result RelationInfo
  sqlite_relation row_count row = do
    name ← lift (D.get_text (codes "name") row)
    type ← lift (D.get_text (codes "type") row)
    kind ← sqlite_kind type
    ok (record {
      name = name;
      kind = kind;
      row_count = row_count;
      size_bytes = none;
      comment = none;
    })

  unfoldable pub sqlite_column : D.Row → Result ColumnInfo
  sqlite_column row = do
    cid ← lift (D.get_int (codes "cid") row)
    name ← lift (D.get_text (codes "name") row)
    type ← lift (D.get_text (codes "type") row)
    not_null ← lift (D.get_int (codes "notnull") row)
    default ← lift (D.get_optional_text (codes "dflt_value") row)
    primary_key ← lift (D.get_int (codes "pk") row)
    ok (record {
      name = name;
      data_type = type;
      nullable = is_zero not_null;
      default = default;
      ordinal = as_unsigned 32 (succ cid);
      primary_key = is_positive primary_key;
      comment = none;
    })

  -- the loop over the rows of `foreign_key_list`
  unfoldable pub group_keys : List D.Row → List Group → Result (List Group)
  group_keys [] groups = ok groups
  group_keys (row ∷ rows) groups = do
    id ← lift (D.get_int (codes "id") row)
    seq ← lift (D.get_int (codes "seq") row)
    table ← lift (D.get_text (codes "table") row)
    column ← lift (D.get_text (codes "from") row)
    group_keys rows (add_to_group id table (seq, column) groups)

  module _ (debug : Text → Text) (pool : D.Pool) (schema : Text) where
    unfoldable pub sqlite_list_relations : Result (List RelationInfo)
    sqlite_list_relations = do
      name ← quote_identifier debug sqlite schema
      rows ← lift (
          D.fetch_all pool
            (codes "SELECT name, type FROM "
              ++ (name
                  ++ codes
                      ".sqlite_master WHERE type IN ('table', 'view') AND name NOT LIKE 'sqlite_%' ORDER BY name"))
            [])
      collect (sqlite_relation none) rows

    -- a PRAGMA on a name of the schema
    unfoldable pub pragma : Text → Text → Result (List D.Row)
    pragma what relation = do
      s ← quote_identifier debug sqlite schema
      r ← quote_identifier debug sqlite relation
      lift (
          D.fetch_all pool
            (codes "PRAGMA " ++ (s ++ (codes "." ++ (what ++ (codes "(" ++ (r ++ codes ")")))))) [])

    unfoldable pub sqlite_table_columns : Text → Result (List ColumnInfo)
    sqlite_table_columns relation = do
      rows ← pragma (codes "table_info") relation
      collect sqlite_column rows

    -- `relation_row_count`
    unfoldable pub sqlite_row_count : Text → RelationKind → Result (Option ℕ)
    sqlite_row_count relation RelationKind.view = ok none
    sqlite_row_count relation RelationKind.table = do
      s ← quote_identifier debug sqlite schema
      r ← quote_identifier debug sqlite relation
      row ←
          lift (
            D.fetch_one pool (codes "SELECT COUNT(*) AS count FROM " ++ (s ++ (codes "." ++ r))) [])
      count ← lift (D.get_int (codes "count") row)
      ok (some (as_unsigned 64 count))

    unfoldable pub sqlite_relation_info : Text → Result RelationInfo
    sqlite_relation_info relation = do
      s ← quote_identifier debug sqlite schema
      found ← lift (
          D.fetch_optional pool
            (codes "SELECT name, type FROM "
              ++ (s ++ codes ".sqlite_master WHERE type IN ('table', 'view') AND name = ?"))
            (Value.text relation ∷ []))
      row ←
          ok_or found (
            DbError.not_found (codes "relation not found: " ++ (schema ++ (codes "." ++ relation))))
      info ← sqlite_relation none row
      row_count ← sqlite_row_count info.name info.kind
      ok (record {
        name = info.name;
        kind = info.kind;
        row_count = row_count;
        size_bytes = none;
        comment = none;
      })

    unfoldable pub sqlite_list_columns : Text → Result (List ColumnInfo)
    sqlite_list_columns relation = do
      info ← sqlite_relation_info relation
      sqlite_table_columns relation

    unfoldable pub index_columns : Text → Result (List Text)
    index_columns index = do
      rows ← pragma (codes "index_info") index
      collect (λ row. lift (D.get_text (codes "name") row)) rows

    unfoldable pub sqlite_index : D.Row → Result IndexInfo
    sqlite_index row = do
      name ← lift (D.get_text (codes "name") row)
      unique ← lift (D.get_int (codes "unique") row)
      columns ← index_columns name
      ok (record { name = name; columns = columns; unique = not (is_zero unique); method = none })

    unfoldable pub sqlite_list_indexes : Text → Result (List IndexInfo)
    sqlite_list_indexes relation = do
      info ← sqlite_relation_info relation
      rows ← pragma (codes "index_list") relation
      collect sqlite_index rows

    unfoldable pub sqlite_list_constraints : Text → Result (List ConstraintInfo)
    sqlite_list_constraints relation = do
      columns ← sqlite_list_columns relation
      rows ← pragma (codes "foreign_key_list") relation
      groups ← group_keys rows []
      ok (pk_constraints relation columns ++ map (fk_constraint relation) groups)

    unfoldable pub sqlite_view_definition : Text → Result Text
    sqlite_view_definition view = do
      info ← sqlite_relation_info view
      if is_view info.kind
          then (do
            s ← quote_identifier debug sqlite schema
            row ← lift (
                D.fetch_one pool
                  (codes "SELECT sql FROM "
                    ++ (s ++ codes ".sqlite_master WHERE type = 'view' AND name = ?"))
                  (Value.text view ∷ []))
            lift (D.get_text (codes "sql") row))
          else err (
              DbError.invalid_argument
                (codes "relation is not a view: " ++ (schema ++ (codes "." ++ view))))
