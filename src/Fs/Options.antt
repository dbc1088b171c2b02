-- ===== src/Fs/Options.antt =====
-- rust/src/fs.rs: the query of a path as the options of a select, and Arrow types of columns.
use fsspec_db.Prelude.{not, ◌||◌, some, List, [], ◌∷◌, ◌++◌, map, keep, is_empty, if◌then◌else◌}
use fsspec_db.Prelude.Text.{Text, codes, text_eq, split, trim, contains, to_ascii_lowercase}
use fsspec_db.Prelude.Decimal.{parse_u64}
use fsspec_db.Error.{Result, ok, err, invalid_argument, ◌>>=◌, ok_or}
use fsspec_db.Types.{Dialect}
use fsspec_db.Sql.Parser.{SqlParser, validate_predicate}
use fsspec_db.Sql.Statements.{SelectOptions, no_options}

-- the value of `columns`
unfoldable pub column_list : Text → List Text
column_list value = keep (λ column. not (is_empty column)) (map trim (split b',' value))

-- `arrow::datatypes::DataType`, as far as columns have one
pub data DataType : Type 0 where
  boolean int64 float64 binary utf8 date32 time64_micros timestamp_micros : DataType

unfoldable pub arrow_type_for_database_type : Text → DataType
arrow_type_for_database_type data_type =
    let normalized = to_ascii_lowercase data_type in
    if contains (codes "bool") normalized
    then boolean
    else if contains (codes "int") normalized
    then int64
    else if contains (codes "real") normalized
        || contains (codes "floa") normalized
        || contains (codes "doub") normalized
        || contains (codes "numeric") normalized
        || contains (codes "decimal") normalized
    then float64
    else if contains (codes "blob") normalized || contains (codes "binary") normalized
    then binary
    else utf8

module _ (p : SqlParser) where
  -- one round of the loop
  unfoldable pub apply_option : Dialect → Text × Text → SelectOptions → Result SelectOptions
  apply_option d (key, value) o =
      if text_eq key (codes "columns")
      then ok (record o { columns = column_list value })
      else if text_eq key (codes "limit")
      then (do
        limit ←
            ok_or (parse_u64 value)
              (invalid_argument (codes "invalid limit query parameter: " ++ value))
        ok (record o { limit = some limit }))
      else if text_eq key (codes "where")
      then (do
        predicate ← validate_predicate p d value
        ok (record o { where_clause = some predicate }))
      else err (invalid_argument (codes "unknown query parameter: " ++ key))

  unfoldable pub apply_options : Dialect → List (Text × Text) → SelectOptions → Result SelectOptions
  apply_options d [] o = ok o
  apply_options d (pair ∷ query) o = do o' ← apply_option d pair o; apply_options d query o'

  unfoldable pub select_options_from_query : Dialect → List (Text × Text) → Result SelectOptions
  select_options_from_query d query = apply_options d query no_options
