-- ===== src/Postgres/Columns.antt =====
-- rust/src/postgres.rs: the columns of a chunk of rows, whose types the database has declared.
use fsspec_db.Prelude.{ℕ, Bool, Option, none, some, List, [], ◌∷◌, ◌++◌, if◌then◌else◌}
use fsspec_db.Prelude.Text.{Text, codes, text_eq, member, to_ascii_uppercase}
use fsspec_db.Prelude.Int.{ℤ}
use fsspec_db.Error.{DbError, Result, ok, err, ◌>>=◌}
use fsspec_db.Stream.Codec.{Bytes}
use fsspec_db.Backend.Driver.{Floats, Driver, done, failed, lift}
use fsspec_db.Backend.Rows.{ColumnOps}
use fsspec_db.Fs.Options.{DataType}

pub data TextKind : Type 0 where
  decimal uuid json : TextKind

pub data ColumnValues (F : Floats) : Type 0 where
  bool : List (Option Bool) → ColumnValues F
  int16 : List (Option ℤ) → ColumnValues F
  int32 : List (Option ℤ) → ColumnValues F
  int64 : List (Option ℤ) → ColumnValues F
  float32 : List (Option F.Float) → ColumnValues F
  float64 : List (Option F.Float) → ColumnValues F
  binary : List (Option Bytes) → ColumnValues F
  utf8 : List (Option Text) → ColumnValues F
  date32 : List (Option ℤ) → ColumnValues F
  time64 : List (Option ℤ) → ColumnValues F
  timestamp : List (Option ℤ) → ColumnValues F
  text : TextKind → List (Option Text) → ColumnValues F
  unsupported : Text → List (Option Text) → ColumnValues F

-- `names.first()`, in upper case
unfoldable pub first_type : List Text → Text
first_type [] = codes "TEXT"
first_type (name ∷ names) = to_ascii_uppercase name

module _ {F : Floats} where
  -- the `match` of `ColumnValues::new`
  unfoldable pub of_type : Text → ColumnValues F
  of_type type =
      if text_eq type (codes "BOOL")
      then bool []
      else if text_eq type (codes "INT2")
      then int16 []
      else if member type (codes "INT4" ∷ codes "OID" ∷ [])
      then int32 []
      else if text_eq type (codes "INT8")
      then int64 []
      else if text_eq type (codes "FLOAT4")
      then float32 []
      else if text_eq type (codes "FLOAT8")
      then float64 []
      else if text_eq type (codes "BYTEA")
      then binary []
      else if member type
          (codes "TEXT" ∷ codes "VARCHAR" ∷ codes "BPCHAR" ∷ codes "CHAR" ∷ codes "NAME" ∷ [])
      then utf8 []
      else if text_eq type (codes "DATE")
      then date32 []
      else if text_eq type (codes "TIME")
      then time64 []
      else if member type (codes "TIMESTAMP" ∷ codes "TIMESTAMPTZ" ∷ [])
      then timestamp []
      else if text_eq type (codes "NUMERIC")
      then text decimal []
      else if text_eq type (codes "UUID")
      then text uuid []
      else if member type (codes "JSON" ∷ codes "JSONB" ∷ [])
      then text json []
      else unsupported type []

  -- `ColumnValues::new`
  unfoldable pub new : List Text → ColumnValues F
  new types = of_type (first_type types)

  unfoldable pub push_null : ColumnValues F → ColumnValues F
  push_null (bool values) = bool (values ++ none ∷ [])
  push_null (int16 values) = int16 (values ++ none ∷ [])
  push_null (int32 values) = int32 (values ++ none ∷ [])
  push_null (int64 values) = int64 (values ++ none ∷ [])
  push_null (float32 values) = float32 (values ++ none ∷ [])
  push_null (float64 values) = float64 (values ++ none ∷ [])
  push_null (binary values) = binary (values ++ none ∷ [])
  push_null (utf8 values) = utf8 (values ++ none ∷ [])
  push_null (date32 values) = date32 (values ++ none ∷ [])
  push_null (time64 values) = time64 (values ++ none ∷ [])
  push_null (timestamp values) = timestamp (values ++ none ∷ [])
  push_null (text kind values) = text kind (values ++ none ∷ [])
  push_null (unsupported name values) = unsupported name (values ++ none ∷ [])

  unfoldable pub data_type : ColumnValues F → DataType
  data_type (bool values) = DataType.boolean
  data_type (int16 values) = DataType.int64
  data_type (int32 values) = DataType.int64
  data_type (int64 values) = DataType.int64
  data_type (float32 values) = DataType.float64
  data_type (float64 values) = DataType.float64
  data_type (binary values) = DataType.binary
  data_type (utf8 values) = DataType.utf8
  data_type (date32 values) = DataType.date32
  data_type (time64 values) = DataType.time64_micros
  data_type (timestamp values) = DataType.timestamp_micros
  data_type (text kind values) = DataType.utf8
  data_type (unsupported name values) = DataType.utf8

module _ {F : Floats} (D : Driver F) where
  -- a moment with a zone, or else one without
  unfoldable pub timestamp_micros : D.Row → ℕ → Result ℤ
  timestamp_micros row index = elim (D.utc_at row index) [
    | done value ↦ ok value
    | failed e ↦ lift (D.naive_at row index)
  ]

  unfoldable pub decode_text : D.Row → ℕ → TextKind → Result Text
  decode_text row index decimal = lift (D.decimal_at row index)
  decode_text row index uuid = lift (D.uuid_at row index)
  decode_text row index json = lift (D.json_at row index)

  abbrev single_value : D.Row → ℕ → Result F.Float
  single_value row index = do value ← lift (D.single_at row index); ok (F.widen value)

  -- the match of `push`, for a value that is not null
  unfoldable pub push_decoded : D.Row → ℕ → ColumnValues F → Result (ColumnValues F)
  push_decoded row index (bool values) = do
    value ← lift (D.bool_at row index)
    ok (bool (values ++ some value ∷ []))
  push_decoded row index (int16 values) = do
    value ← lift (D.int_at row index)
    ok (int16 (values ++ some value ∷ []))
  push_decoded row index (int32 values) = do
    value ← lift (D.int_at row index)
    ok (int32 (values ++ some value ∷ []))
  push_decoded row index (int64 values) = do
    value ← lift (D.int_at row index)
    ok (int64 (values ++ some value ∷ []))
  push_decoded row index (float32 values) = do
    value ← single_value row index
    ok (float32 (values ++ some value ∷ []))
  push_decoded row index (float64 values) = do
    value ← lift (D.float_at row index)
    ok (float64 (values ++ some value ∷ []))
  push_decoded row index (binary values) = do
    value ← lift (D.bytes_at row index)
    ok (binary (values ++ some value ∷ []))
  push_decoded row index (utf8 values) = do
    value ← lift (D.text_at row index)
    ok (utf8 (values ++ some value ∷ []))
  push_decoded row index (date32 values) = do
    value ← lift (D.date_at row index)
    ok (date32 (values ++ some value ∷ []))
  push_decoded row index (time64 values) = do
    value ← lift (D.time_at row index)
    ok (time64 (values ++ some value ∷ []))
  push_decoded row index (timestamp values) = do
    value ← timestamp_micros row index
    ok (timestamp (values ++ some value ∷ []))
  push_decoded row index (text kind values) = do
    value ← decode_text row index kind
    ok (text kind (values ++ some value ∷ []))
  push_decoded row index (unsupported name values) = err (
      DbError.not_supported
        (codes "Postgres query output type is not yet mapped to Arrow: " ++ name))

  -- `ColumnValues::push`
  unfoldable pub push : D.Row → ℕ → ColumnValues F → Result (ColumnValues F)
  push row index values = do
    raw ← lift (D.raw row index)
    if raw.is_null then ok (push_null values) else push_decoded row index values

  abbrev pub postgres_columns : ColumnOps D
  postgres_columns = record {
    Values = ColumnValues F;
    new = new;
    push = push;
    data_type = data_type;
  }
