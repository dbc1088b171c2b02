-- ===== src/Backend/Driver.antt =====
-- What the back ends take of sqlx, of Arrow's arrays and of floating-point numbers, and `DbValue` of
-- rust/src/database.rs.
use fsspec_db.Prelude.{ℕ, Bool, Option, List}
use fsspec_db.Prelude.Text.{Text}
use fsspec_db.Prelude.Int.{ℤ}
use fsspec_db.Error.{SqlxError, Result, ok, err, from_sqlx}
use fsspec_db.Stream.Codec.{Bytes, Registry}
use fsspec_db.Fs.Write.{Field}

-- `f64` and `f32`: `f64::from`, `n as f64`, 0.0 and 1.0, `to_string`
pub record Floats : Type 1 where
  pub Float : Type 0
  pub Single : Type 0
  pub widen : Single → Float
  pub of_int : ℤ → Float
  pub zero : Float
  pub one : Float
  pub show : Float → Text

-- `sqlx::Result<A>`
pub data Reply {ℓ} (A : Type ℓ) : Type ℓ where
  done : A → Reply A
  failed : SqlxError → Reply A

-- `?` where the function returns a `DbError`
abbrev pub lift {ℓ} : {A : Type ℓ} → Reply A → Result A
lift (done a) = ok a
lift (failed e) = err (from_sqlx e)

-- an argument that is bound to a query
pub data Value (F : Floats) : Type 0 where
  null : Value F
  boolean : Bool → Value F
  int : ℤ → Value F
  float : F.Float → Value F
  single : F.Single → Value F
  text : Text → Value F
  bytes : Bytes → Value F

-- `DbValue`
pub data DbValue (F : Floats) : Type 0 where
  null : DbValue F
  bool : Bool → DbValue F
  int64 : ℤ → DbValue F
  float64 : F.Float → DbValue F
  string : Text → DbValue F
  binary : Bytes → DbValue F

-- `TimeUnit`
pub data TimeUnit : Type 0 where
  second millisecond microsecond nanosecond : TimeUnit

-- A cell of an Arrow array: null, or a value of the array's type; an array of another type by the
-- type's debug text. The storage of an array has the type that the array says.
pub data ArrowCell (F : Floats) : Type 0 where
  null : ArrowCell F
  boolean : Bool → ArrowCell F
  int8 int16 int32 int64 : ℤ → ArrowCell F
  uint8 uint16 uint32 uint64 : ℕ → ArrowCell F
  float32 : F.Single → ArrowCell F
  float64 : F.Float → ArrowCell F
  utf8 large_utf8 : Text → ArrowCell F
  binary large_binary : Bytes → ArrowCell F
  date32 date64 : ℤ → ArrowCell F
  time32 time64 timestamp : TimeUnit → ℤ → ArrowCell F
  unsupported : Text → ArrowCell F

-- A batch as a back end reads it: the names of its columns, and its rows.
pub record Table (Cell : Type 0) : Type 0 where
  pub columns : List Text
  pub rows : List (List Cell)

-- What `try_get_raw` says of a value: whether it is null, and its type's name.
pub record Raw : Type 0 where
  pub is_null : Bool
  pub type_name : Text

-- A driver of sqlx: queries with their arguments, on the pool or in a transaction, and the values of
-- a row by the column's name or index. A transaction that is dropped is rolled back, so only `commit`
-- changes the pool's database.
pub record Driver (F : Floats) : Type 1 where
  pub Pool : Type 0
  pub Row : Type 0
  pub Tx : Type 0
  pub fetch_all : Pool → Text → List (Value F) → Reply (List Row)
  pub fetch_optional : Pool → Text → List (Value F) → Reply (Option Row)
  pub fetch_one : Pool → Text → List (Value F) → Reply Row
  -- `fetch`: the rows that come, and the error that the stream may end with
  pub fetch : Pool → Text → List (Value F) → List Row × Option SqlxError
  -- the columns of a row, and of a prepared statement: the name and the type's name
  pub columns : Row → List (Text × Text)
  pub prepare : Pool → Text → Reply (List (Text × Text))
  pub get_text : Text → Row → Reply Text
  pub get_int : Text → Row → Reply ℤ
  pub get_optional_text : Text → Row → Reply (Option Text)
  pub get_optional_int : Text → Row → Reply (Option ℤ)
  pub get_flag : Text → Row → Reply Bool
  pub get_unsigned : Text → Row → Reply ℕ
  pub get_optional_unsigned : Text → Row → Reply (Option ℕ)
  pub raw : Row → ℕ → Reply Raw
  pub bool_at : Row → ℕ → Reply Bool
  pub int_at : Row → ℕ → Reply ℤ
  pub float_at : Row → ℕ → Reply F.Float
  pub text_at : Row → ℕ → Reply Text
  pub bytes_at : Row → ℕ → Reply Bytes
  pub unsigned_at : Row → ℕ → Reply ℕ
  pub single_at : Row → ℕ → Reply F.Single
  -- a date by its days since 1970, a time by its microseconds since midnight, and moments with and
  -- without a zone by their microseconds since 1970
  pub date_at : Row → ℕ → Reply ℤ
  pub time_at : Row → ℕ → Reply ℤ
  pub utc_at : Row → ℕ → Reply ℤ
  pub naive_at : Row → ℕ → Reply ℤ
  -- `BigDecimal`, `Uuid` and `JsonValue`, by the text they display as
  pub decimal_at : Row → ℕ → Reply Text
  pub uuid_at : Row → ℕ → Reply Text
  pub json_at : Row → ℕ → Reply Text
  pub begin : Pool → Reply Tx
  pub execute : Text → List (Value F) → Tx → Reply (ℕ × Tx)
  -- `copy_in_raw`, `send` and `finish`
  pub copy_in : Text → Bytes → Tx → Reply (ℕ × Tx)
  pub commit : Tx → Reply {0} Unit × Pool

module _ {F : Floats} where
  -- `query.bind` of a `DbValue`
  unfoldable pub bind_value : DbValue F → Value F
  bind_value DbValue.null = Value.null
  bind_value (bool value) = Value.boolean value
  bind_value (int64 value) = Value.int value
  bind_value (float64 value) = Value.float value
  bind_value (string value) = Value.text value
  bind_value (DbValue.binary value) = Value.bytes value

-- What the back ends take of Arrow: schemas, and batches as the rows of their cells.
pub record Arrow (F : Floats) (R : Registry) : Type 1 where
  pub new_schema : List Field → R.Schema
  pub batch_schema : R.Batch → R.Schema
  pub new_empty : R.Schema → R.Batch
  pub table : R.Batch → Table (ArrowCell F)
