-- ===== src/MySql/Columns.antt =====
-- rust/src/mysql.rs: the columns of a chunk of rows, whose types the database has declared.
use fsspec_db.Prelude.{ℕ, Bool, Option, none, some, List, [], ◌∷◌, ◌++◌, if◌then◌else◌}
use fsspec_db.Prelude.Text.{Text, codes, text_eq, member, to_ascii_uppercase}
use fsspec_db.Prelude.Int.{ℤ, i64_try_from}
use fsspec_db.Error.{DbError, Result, ok, err, ◌>>=◌}
use fsspec_db.Stream.Codec.{Bytes}
use fsspec_db.Backend.Driver.{Floats, Driver, done, failed, lift}
use fsspec_db.Backend.Rows.{ColumnOps}
use fsspec_db.Fs.Options.{DataType}

pub data ColumnValues (F : Floats) : Type 0 where
  bool : List (Option Bool) → ColumnValues F
  signed_int : List (Option ℤ) → ColumnValues F
  unsigned_int : List (Option ℤ) → ColumnValues F
  float32 : List (Option F.Float) → ColumnValues F
  float64 : List (Option F.Float) → ColumnValues F
  binary : List (Option Bytes) → ColumnValues F
  utf8 : List (Option Text) → ColumnValues F
  date32 : List (Option ℤ) → ColumnValues F
  timestamp : List (Option ℤ) → ColumnValues F
  decimal : List (Option Text) → ColumnValues F
  json : List (Option Text) → ColumnValues F
  unsupported : Text → List (Option Text) → ColumnValues F

-- `names.first()`, in upper case
unfoldable pub first_type : List Text → Text
first_type [] = codes "TEXT"
first_type (name ∷ names) = to_ascii_uppercase name

module _ {F : Floats} where
  -- the `match` of `ColumnValues::new`
  unfoldable pub of_type : Text → ColumnValues F
  of_type type =
      if text_eq type (codes "BOOLEAN")
      then bool []
      else if member type (
          codes "TINYINT"
          ∷ codes "SMALLINT"
          ∷ codes "MEDIUMINT"
          ∷ codes "INT"
          ∷ codes "BIGINT"
          ∷ codes "YEAR"
          ∷ [])
      then signed_int []
      else if member type (
          codes "TINYINT UNSIGNED"
          ∷ codes "SMALLINT UNSIGNED"
          ∷ codes "MEDIUMINT UNSIGNED"
          ∷ codes "INT UNSIGNED"
          ∷ codes "BIGINT UNSIGNED"
          ∷ codes "BIT"
          ∷ [])
      then unsigned_int []
      else if text_eq type (codes "FLOAT")
      then float32 []
      else if text_eq type (codes "DOUBLE")
      then float64 []
      else if member type (
          codes "BINARY"
          ∷ codes "VARBINARY"
          ∷ codes "TINYBLOB"
          ∷ codes "BLOB"
          ∷ codes "MEDIUMBLOB"
          ∷ codes "LONGBLOB"
          ∷ [])
      then binary []
      else if member type (
          codes "CHAR"
          ∷ codes "VARCHAR"
          ∷ codes "TINYTEXT"
          ∷ codes "TEXT"
          ∷ codes "MEDIUMTEXT"
          ∷ codes "LONGTEXT"
          ∷ codes "ENUM"
          ∷ codes "SET"
          ∷ codes "NULL"
          ∷ [])
      then utf8 []
      else if text_eq type (codes "DATE")
      then date32 []
      else if member type (codes "DATETIME" ∷ codes "TIMESTAMP" ∷ [])
      then timestamp []
      else if text_eq type (codes "DECIMAL")
      then decimal []
      else if text_eq type (codes "JSON")
      then json []
      else unsupported type []

  -- `ColumnValues::new`
  unfoldable pub new : List Text → ColumnValues F
  new types = of_type (first_type types)

  unfoldable pub push_null : ColumnValues F → ColumnValues F
  push_null (bool values) = bool (values ++ none ∷ [])
  push_null (signed_int values) = signed_int (values ++ none ∷ [])
  push_null (unsigned_int values) = unsigned_int (values ++ none ∷ [])
  push_null (float32 values) = float32 (values ++ none ∷ [])
  push_null (float64 values) = float64 (values ++ none ∷ [])
  push_null (binary values) = binary (values ++ none ∷ [])
  push_null (utf8 values) = utf8 (values ++ none ∷ [])
  push_null (date32 values) = date32 (values ++ none ∷ [])
  push_null (timestamp values) = timestamp (values ++ none ∷ [])
  push_null (decimal values) = decimal (values ++ none ∷ [])
  push_null (json values) = json (values ++ none ∷ [])
  push_null (unsupported name values) = unsupported name (values ++ none ∷ [])

  unfoldable pub data_type : ColumnValues F → DataType
  data_type (bool values) = DataType.boolean
  data_type (signed_int values) = DataType.int64
  data_type (unsigned_int values) = DataType.int64
  data_type (float32 values) = DataType.float64
  data_type (float64 values) = DataType.float64
  data_type (binary values) = DataType.binary
  data_type (utf8 values) = DataType.utf8
  data_type (date32 values) = DataType.date32
  data_type (timestamp values) = DataType.timestamp_micros
  data_type (decimal values) = DataType.utf8
  data_type (json values) = DataType.utf8
  data_type (unsupported name values) = DataType.utf8

module _ {F : Floats} (D : Driver F) where
  -- a moment with a zone, or else one without
  unfoldable pub timestamp_micros : D.Row → ℕ → Result ℤ
  timestamp_micros row index = elim (D.utc_at row index) [
    | done value ↦ ok value
    | failed e ↦ lift (D.naive_at row index)
  ]

  -- a `u64` that must fit an `i64`
  unfoldable pub unsigned_value : D.Row → ℕ → Result ℤ
  unsigned_value row index = do
    value ← lift (D.unsigned_at row index)
    elim (i64_try_from value) [
      | none ↦
          err
            (DbError.invalid_argument (codes "MySQL unsigned integer does not fit in Arrow Int64"))
      | some number ↦ ok number
    ]

  abbrev single_value : D.Row → ℕ → Result F.Float
  single_value row index = do value ← lift (D.single_at row index); ok (F.widen value)

  -- the match of `push`, for a value that is not null
  unfoldable pub push_decoded : D.Row → ℕ → ColumnValues F → Result (ColumnValues F)
  push_decoded row index (bool values) = do
    value ← lift (D.bool_at row index)
    ok (bool (values ++ some value ∷ []))
  push_decoded row index (signed_int values) = do
    value ← lift (D.int_at row index)
    ok (signed_int (values ++ some value ∷ []))
  push_decoded row index (unsigned_int values) = do
    value ← unsigned_value row index
    ok (unsigned_int (values ++ some value ∷ []))
  push_decoded row index (float32 values) = do
    value ← single_value row index
    ok (float32 (values ++ some value ∷ []))
  push_decoded row index (float64 values) = do
    value ← lift (D.float_at row index)
    ok (float64 (values ++ some value ∷ []))
  push_decoded row index (binary values) = do
    value ← lift (D.bytes_at row index)
    ok (binary (values ++ some value ∷ []))
  push_decoded row index (utf8 values) = do
    value ← lift (D.text_at row index)
    ok (utf8 (values ++ some value ∷ []))
  push_decoded row index (date32 values) = do
    value ← lift (D.date_at row index)
    ok (date32 (values ++ some value ∷ []))
  push_decoded row index (timestamp values) = do
    value ← timestamp_micros row index
    ok (timestamp (values ++ some value ∷ []))
  push_decoded row index (decimal values) = do
    value ← lift (D.decimal_at row index)
    ok (decimal (values ++ some value ∷ []))
  push_decoded row index (json values) = do
    value ← lift (D.json_at row index)
    ok (json (values ++ some value ∷ []))
  push_decoded row index (unsupported name values) =
      err (
        DbError.not_supported
          (codes "MySQL query output type is not yet mapped to Arrow: " ++ name))

  -- `ColumnValues::push`
  unfoldable pub push : D.Row → ℕ → ColumnValues F → Result (ColumnValues F)
  push row index values = do
    raw ← lift (D.raw row index)
    if raw.is_null then ok (push_null values) else push_decoded row index values

  abbrev pub mysql_columns : ColumnOps D
  mysql_columns = record { Values = ColumnValues F; new = new; push = push; data_type = data_type }
