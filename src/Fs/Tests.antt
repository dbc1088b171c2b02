-- ===== src/Fs/Tests.antt =====
-- The mock database of the unit tests of rust/src/fs.rs, over the bracketing codec, and the theorems
-- about it.
use fsspec_db.Prelude.{
  map, ℕ, ◌-◌, ◌≡◌, refl, ◌↔◌, true, false, some, none, List, [], ◌∷◌, length, take, drop,
}
use fsspec_db.Prelude.Text.{
  Text, codes, split, trim, trim_start, trim_end, is_whitespace, join, replace,
}
use fsspec_db.Prelude.Decimal.{parse_u64, scan, print, digits}
use fsspec_db.Error.{DbError, ok, err, collect}
use fsspec_db.Path.Defs.{DataFormat, DbFacet}
use fsspec_db.Path.Tests.{main_name, users_name, users_text, users_path, parse_users}
use fsspec_db.Types.{RelationKind, RelationInfo, ColumnInfo, sqlite}
use fsspec_db.Sql.Parser.{SqlParser, parsed}
use fsspec_db.Sql.Statements.{
  SelectOptions, no_options, has_nul, quote_identifier, qualified_name, select_columns, select_sql,
}
use fsspec_db.Sql.Tests.{no_debug}
use fsspec_db.Stream.Defs.{at, before, EncodedDbFile, interchange_format}
use fsspec_db.Stream.Cursor.{readable}
use fsspec_db.Stream.Fill.{encode_rest}
use fsspec_db.Stream.Refines.{Refines}
use fsspec_db.Stream.Open.{encoding}
use fsspec_db.Stream.Tests.{brackets, named, items}
use fsspec_db.Fs.Database.{Database, validate}
use fsspec_db.Fs.Infos.{column_info, relation_data_file}
use fsspec_db.Fs.Options.{column_list, apply_option, apply_options, select_options_from_query}
use fsspec_db.Fs.Slice.{slice_materialized, python_index, slice_materialized_lem}
use fsspec_db.Fs.Facets.{facet_entries}
use fsspec_db.Fs.Dispatch.{info_db, required_schema, required_relation, ls_db}
use fsspec_db.Fs.Read.{encoded, open_read}
use fsspec_db.Fs.Applied.{Applied}
use fsspec_db.Fs.Query.{select_options_from_query_lem}
use fsspec_db.Fs.Choices.{AreBounds, validate_lem}
use fsspec_db.Cache.Defs.{lookup}
use fsspec_db.Prelude.Text.{member}
use fsspec_db.Prelude.{◌+◌, arith}
use fsspec_db.Fs.Database.{InsertMode}
use fsspec_db.Fs.Write.{
  Store, DatabaseFs, ls, write_bytes, write_bytes_to_database, rows_to_write, write_target,
  write_format, read_rows,
}
use fsspec_db.Fs.Cached.{Coherent, Listed, ls-Listed, write_bytes-Coherent}
use fsspec_db.Fs.Errors.{FsResult}
use fsspec_db.Fs.Columns.{KeepsName, info_db-columns}
use fsspec_db.Path.Print.{facet_path, facet_item_path}
use fsspec_db.Fs.Open.{open_read-encoding, IsData, open_read-IsData}
use fsspec_db.Fs.Cat.{finished}
use fsspec_db.Fs.CatFile.{Opens, cat_file_db, cat_file_db-slice}

-- a parser that takes every text for an expression
abbrev any_parser : SqlParser
any_parser = record {
  Parser = Text;
  Expr = Text;
  try_with_sql = λ d text. parsed text;
  parse_expr = λ text. parsed (text, []);
  at_end = λ rest. true;
  render = λ e. e;
  relations = λ d text. parsed [];
}

abbrev users : RelationInfo
users = record {
  name = codes "users";
  kind = RelationKind.table;
  row_count = some 2;
  size_bytes = none;
  comment = some (codes "app users");
}

abbrev column : Text → ℕ → ColumnInfo
column name ordinal = record {
  name = name;
  data_type = codes "TEXT";
  nullable = true;
  default = none;
  ordinal = ordinal;
  primary_key = false;
  comment = none;
}

abbrev mock : Database brackets
mock = record {
  dialect = sqlite;
  list_schemas = ok (record { name = codes "main"; catalog = none; comment = none } ∷ []);
  list_relations = λ s. ok (users ∷ []);
  list_columns = λ s r. ok (column (codes "id") 1 ∷ column (codes "name") 2 ∷ []);
  list_indexes = λ s r. ok [];
  list_constraints = λ s r. ok [];
  relation_info = λ s r. ok users;
  view_definition = λ s r. err (DbError.not_found r);
  query = λ sql. ok (tt, items);
}

abbrev users_options : SelectOptions
users_options = record {
  columns = codes "id" ∷ codes "name" ∷ [];
  limit = some 5;
  where_clause = none;
}

users_select : select_options_from_query any_parser sqlite users_path.query ≡ ok users_options
unfolding select_options_from_query apply_options apply_option column_list split trim trim_start
    trim_end is_whitespace parse_u64 scan
users_select = refl

select_options_from_query_lem_example :
    (select_options_from_query any_parser sqlite users_path.query ≡ ok users_options)
    ↔ Applied any_parser sqlite users_path.query no_options users_options
select_options_from_query_lem_example =
    select_options_from_query_lem any_parser sqlite users_path.query users_options

abbrev four : List ℕ
four = 1 ∷ 2 ∷ 3 ∷ 4 ∷ []

slice_materialized_lem_example : slice_materialized four (some (before 2)) (some (at 9)) ≡ (
    let len = length four in
    let start = python_index len 0 (some (before 2)) in
    take (python_index len len (some (at 9)) - start) (drop start four))
slice_materialized_lem_example = slice_materialized_lem four (some (before 2)) (some (at 9))

validate_lem_example :
    (validate (record { min_connections = some 2; max_connections = some 1 }) ≡ ok tt)
    ↔ AreBounds (some 2) (some 1)
validate_lem_example = validate_lem (record { min_connections = some 2; max_connections = some 1 })

users_columns :
    facet_entries named any_parser mock (codes "main") (codes "users") DbFacet.columns
    ≡ ok (
        column_info named (codes "main") (codes "users") (column (codes "id") 1)
        ∷ column_info named (codes "main") (codes "users") (column (codes "name") 2)
        ∷ [])
unfolding facet_entries collect
users_columns = refl

named-KeepsName : KeepsName named
named-KeepsName = record { file = λ n size. refl; extra = λ k v i. refl }

info_db-columns_example :
    (ls_db named any_parser mock (facet_path (codes "main") (codes "users") DbFacet.columns)
      ≡ ok (
          map
            (column_info named (codes "main") (codes "users"))
            (column (codes "id") 1 ∷ column (codes "name") 2 ∷ [])))
    × (info_db named any_parser mock
          (facet_item_path (codes "main") (codes "users") DbFacet.columns (codes "name"))
        ≡ ok (column_info named (codes "main") (codes "users") (column (codes "name") 2)))
unfolding is_whitespace
info_db-columns_example =
    info_db-columns named named-KeepsName (codes "main") (codes "users") any_parser mock users
      (column (codes "id") 1 ∷ []) (column (codes "name") 2) [] main_name users_name
      (λ e. cc, omega arith, omega arith, refl) refl refl ((omega arith, λ e. cc), tt)

users_names : required_relation users_path ≡ ok (codes "main", codes "users")
unfolding required_relation required_schema
users_names = refl

abbrev users_sql : Text
users_sql = codes "SELECT \"id\", \"name\" FROM \"main\".\"users\" LIMIT 5"

users_statement :
    select_sql no_debug sqlite (codes "main") (codes "users") users_options ≡ ok users_sql
unfolding select_sql qualified_name select_columns quote_identifier has_nul collect join replace
    print digits
users_statement = refl

users_encoding : encoding brackets tt items DataFormat.arrow ≡ some (40 ∷ 1 ∷ 2 ∷ 3 ∷ 41 ∷ [])
unfolding encoding interchange_format encode_rest
users_encoding = refl

users_opened :
    (f : EncodedDbFile brackets named) × (open_read no_debug named any_parser mock users_text
      ≡ ok (encoded f))
    × Refines f (
        readable
          (40 ∷ 1 ∷ 2 ∷ 3 ∷ 41 ∷ [])
          (relation_data_file named sqlite (codes "main") (codes "users") users DataFormat.arrow))
users_opened =
    open_read-encoding named any_parser no_debug mock users_text users_path DataFormat.arrow
      (codes "main") (codes "users") users users_options users_sql (tt, items)
      (40 ∷ 1 ∷ 2 ∷ 3 ∷ 41 ∷ []) parse_users refl refl users_names refl users_select users_statement
      refl users_encoding

open_read-IsData_example :
    IsData named any_parser no_debug mock users_path DataFormat.arrow (encoded users_opened.0)
open_read-IsData_example =
    open_read-IsData named any_parser no_debug mock users_text users_path DataFormat.arrow
      (encoded users_opened.0) parse_users refl refl users_opened.1

cat_file_db-slice_example :
    cat_file_db brackets named no_debug any_parser mock (λ k. k) 9 users_text (some (before 2)) none
    ≡ finished (ok (2 ∷ 3 ∷ 41 ∷ []))
cat_file_db-slice_example =
    let (f, opened, refines) = users_opened in
    cat_file_db-slice brackets named no_debug any_parser mock (λ k. k) 9 users_text
      (some (before 2)) none (40 ∷ 1 ∷ 2 ∷ 3 ∷ 41 ∷ []) (encoded f) opened
      (Opens.encoding
        (relation_data_file named sqlite (codes "main") (codes "users") users DataFormat.arrow)
        refines)
      (omega arith) (omega arith)

-- the mock database as one whose state counts the rows written
abbrev counting : Store brackets
counting = record {
  State = ℕ;
  told = λ n. mock;
  new_schema = λ fields. tt;
  parquet_to_arrow = λ bytes. ok (tt, items);
  ipc_to_arrow = λ bytes. ok (tt, items);
  csv_to_arrow = λ bytes schema. ok (tt, items);
  jsonl_to_arrow = λ bytes schema. ok (tt, items);
  insert_rows = λ s r rows mode n. (ok 2, n + 2);
}

abbrev fresh_fs : DatabaseFs counting named
fresh_fs = record {
  state = 0;
  cache = record {
    options = record { ttl = some 60; max_entries = some 2 };
    entries = [];
    recency = [];
  };
}

fresh_fs-Coherent : Coherent any_parser fresh_fs
unfolding lookup member
fresh_fs-Coherent = record {
  valid = record {
    agree = record { unique = tt; once = tt; same = λ k. refl };
    within = omega arith;
  };
  answers = λ path. tt;
}

ls-Listed_example :
    (out : FsResult (List (Text × ℕ)) × DatabaseFs counting named) × (ls any_parser 3
        (codes "/main")
        fresh_fs
      ≡ some out)
    × Listed any_parser (codes "/main") fresh_fs out
ls-Listed_example = ls-Listed any_parser 3 (codes "/main") fresh_fs fresh_fs-Coherent

users_written : (write_bytes users_text [] InsertMode.append fresh_fs).0 ≡ ok 2
unfolding write_bytes write_bytes_to_database rows_to_write write_target write_format read_rows
    required_relation required_schema
users_written =
    rw (parse_users, write_bytes, write_bytes_to_database, rows_to_write, write_target) refl

write_bytes-Coherent_example :
    Coherent any_parser (write_bytes users_text [] InsertMode.append fresh_fs).1
write_bytes-Coherent_example =
    write_bytes-Coherent any_parser users_text [] InsertMode.append fresh_fs 2 users_written
