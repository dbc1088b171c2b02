-- ===== src/Sqlite/Columns.antt =====
-- rust/src/sqlite.rs: the columns of a chunk of rows, their types and their values.
-- `lossy` is `String::from_utf8_lossy`, of the standard library.
use fsspec_db.Prelude.{
  ℕ, Bool, true, false, ◌||◌, Option, none, some, List, [], ◌∷◌, ◌++◌, map, if◌then◌else◌,
}
use fsspec_db.Prelude.Text.{Text, codes, contains, to_ascii_lowercase}
use fsspec_db.Prelude.Utf8.{encode}
use fsspec_db.Prelude.Int.{ℤ, pos, print_int, is_zero}
use fsspec_db.Error.{DbError, Result, ok, err, ◌>>=◌}
use fsspec_db.Stream.Codec.{Bytes}
use fsspec_db.Backend.Driver.{Floats, Driver, lift}
use fsspec_db.Backend.Rows.{ColumnOps}
use fsspec_db.Fs.Options.{DataType}

-- the tests of type names, on their lower case
abbrev pub is_text : Text → Bool
is_text name = contains (codes "text") name || contains (codes "char") name

abbrev pub is_blob : Text → Bool
is_blob name = contains (codes "blob") name

abbrev pub is_real : Text → Bool
is_real name =
    contains (codes "real") name || contains (codes "floa") name || contains (codes "doub") name

abbrev pub is_bool : Text → Bool
is_bool name = contains (codes "bool") name

abbrev pub is_int : Text → Bool
is_int name = contains (codes "int") name

-- `iter().any(p)`
abbrev pub any : (Text → Bool) → List Text → Bool
any p [] = false
any p (name ∷ names) = p name || any p names

pub data ColumnValues (F : Floats) : Type 0 where
  bool : List (Option Bool) → ColumnValues F
  int64 : List (Option ℤ) → ColumnValues F
  float64 : List (Option F.Float) → ColumnValues F
  binary : List (Option Bytes) → ColumnValues F
  utf8 : List (Option Text) → ColumnValues F

module _ {F : Floats} where
  -- the branches of `ColumnValues::new`, on lower-case names
  unfoldable pub new_lower : List Text → ColumnValues F
  new_lower names =
      if any is_text names
      then ColumnValues.utf8 []
      else if any is_blob names
      then ColumnValues.binary []
      else if any is_real names
      then ColumnValues.float64 []
      else if any is_bool names
      then ColumnValues.bool []
      else if any is_int names
      then ColumnValues.int64 []
      else ColumnValues.utf8 []

  -- `ColumnValues::new`
  unfoldable pub new : List Text → ColumnValues F
  new sqlite_types = new_lower (map to_ascii_lowercase sqlite_types)

  unfoldable pub push_null : ColumnValues F → ColumnValues F
  push_null (bool values) = bool (values ++ none ∷ [])
  push_null (int64 values) = int64 (values ++ none ∷ [])
  push_null (float64 values) = float64 (values ++ none ∷ [])
  push_null (binary values) = binary (values ++ none ∷ [])
  push_null (utf8 values) = utf8 (values ++ none ∷ [])

  unfoldable pub data_type : ColumnValues F → DataType
  data_type (bool values) = DataType.boolean
  data_type (int64 values) = DataType.int64
  data_type (float64 values) = DataType.float64
  data_type (binary values) = DataType.binary
  data_type (utf8 values) = DataType.utf8

abbrev undecoded : Text → Text → DbError
undecoded what type_name =
    DbError.not_supported
      (codes "SQLite value type cannot be decoded as " ++ (what ++ (codes ": " ++ type_name)))

abbrev pub print_bool : Bool → Text
print_bool true = codes "true"
print_bool false = codes "false"

module _ {F : Floats} (D : Driver F) (lossy : Bytes → Text) where
  unfoldable pub decode_sqlite_bool : D.Row → ℕ → Text → Result Bool
  decode_sqlite_bool row index type_name =
      if is_bool type_name
      then lift (D.bool_at row index)
      else if is_int type_name
      then (do value ← lift (D.int_at row index); ok (if is_zero value then false else true))
      else err (undecoded (codes "bool") type_name)

  unfoldable pub decode_sqlite_i64 : D.Row → ℕ → Text → Result ℤ
  decode_sqlite_i64 row index type_name =
      if is_bool type_name
      then (do value ← lift (D.bool_at row index); ok (if value then pos 1 else pos 0))
      else if is_int type_name
      then lift (D.int_at row index)
      else err (undecoded (codes "integer without loss") type_name)

  unfoldable pub decode_sqlite_f64 : D.Row → ℕ → Text → Result F.Float
  decode_sqlite_f64 row index type_name =
      if is_real type_name
      then lift (D.float_at row index)
      else if is_bool type_name
      then (do value ← lift (D.bool_at row index); ok (if value then F.one else F.zero))
      else if is_int type_name
      then (do value ← lift (D.int_at row index); ok (F.of_int value))
      else err (undecoded (codes "float") type_name)

  unfoldable pub decode_sqlite_utf8 : D.Row → ℕ → Text → Result Text
  decode_sqlite_utf8 row index type_name =
      if is_text type_name
      then lift (D.text_at row index)
      else if is_blob type_name
      then (do value ← lift (D.bytes_at row index); ok (lossy value))
      else if is_real type_name
      then (do value ← lift (D.float_at row index); ok (F.show value))
      else if is_bool type_name
      then (do value ← lift (D.bool_at row index); ok (print_bool value))
      else if is_int type_name
      then (do value ← lift (D.int_at row index); ok (print_int value))
      else err (undecoded (codes "text") type_name)

  unfoldable pub decode_sqlite_binary : D.Row → ℕ → Text → Result Bytes
  decode_sqlite_binary row index type_name =
      if is_blob type_name
      then lift (D.bytes_at row index)
      else (do text ← decode_sqlite_utf8 row index type_name; ok (encode text))

  -- the match of `push`, for a value that is not null
  unfoldable pub push_decoded : D.Row → ℕ → Text → ColumnValues F → Result (ColumnValues F)
  push_decoded row index type_name (bool values) = do
    value ← decode_sqlite_bool row index type_name
    ok (bool (values ++ some value ∷ []))
  push_decoded row index type_name (int64 values) = do
    value ← decode_sqlite_i64 row index type_name
    ok (int64 (values ++ some value ∷ []))
  push_decoded row index type_name (float64 values) = do
    value ← decode_sqlite_f64 row index type_name
    ok (float64 (values ++ some value ∷ []))
  push_decoded row index type_name (binary values) = do
    value ← decode_sqlite_binary row index type_name
    ok (binary (values ++ some value ∷ []))
  push_decoded row index type_name (utf8 values) = do
    value ← decode_sqlite_utf8 row index type_name
    ok (utf8 (values ++ some value ∷ []))

  -- `ColumnValues::push`
  unfoldable pub push : D.Row → ℕ → ColumnValues F → Result (ColumnValues F)
  push row index values = do
    raw ← lift (D.raw row index)
    if raw.is_null
        then ok (push_null values)
        else push_decoded row index (to_ascii_lowercase raw.type_name) values

  abbrev pub sqlite_columns : ColumnOps D
  sqlite_columns = record { Values = ColumnValues F; new = new; push = push; data_type = data_type }
