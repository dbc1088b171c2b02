-- ===== src/Sqlite/Bind.antt =====
-- rust/src/sqlite.rs: the cells of Arrow as SQLite's values.
-- `debug` is the debug text of the type of a cell's array.
use fsspec_db.Prelude.{◌++◌, some, none}
use fsspec_db.Prelude.Text.{Text, codes}
use fsspec_db.Prelude.Int.{ℤ, pos, i64_try_from}
use fsspec_db.Error.{DbError, Result, ok, err}
use fsspec_db.Backend.Driver.{
  Floats, Value, ArrowCell, int8, int16, int32, int64, uint8, uint16, uint32, uint64, float32,
  float64, utf8, large_utf8, large_binary, date32, date64, time32, time64, timestamp, unsupported,
  TimeUnit, second, millisecond, microsecond, nanosecond,
}

abbrev unsupported_type : Text → DbError
unsupported_type type =
    DbError.not_supported (codes "SQLite insert does not support Arrow type " ++ type)

module _ {F : Floats} (debug : ArrowCell F → Text) where
  -- the units that the width of the array allows
  abbrev bind_time32 : TimeUnit → ℤ → Result (Value F)
  bind_time32 second value = ok (Value.int value)
  bind_time32 millisecond value = ok (Value.int value)
  bind_time32 microsecond value = err (unsupported_type (debug (time32 microsecond value)))
  bind_time32 nanosecond value = err (unsupported_type (debug (time32 nanosecond value)))

  abbrev bind_time64 : TimeUnit → ℤ → Result (Value F)
  bind_time64 microsecond value = ok (Value.int value)
  bind_time64 nanosecond value = ok (Value.int value)
  bind_time64 second value = err (unsupported_type (debug (time64 second value)))
  bind_time64 millisecond value = err (unsupported_type (debug (time64 millisecond value)))

  -- the last branch is unreachable
  unfoldable pub bind_temporal_value : ArrowCell F → Result (Value F)
  bind_temporal_value (date32 value) = ok (Value.int value)
  bind_temporal_value (date64 value) = ok (Value.int value)
  bind_temporal_value (time32 unit value) = bind_time32 unit value
  bind_temporal_value (time64 unit value) = bind_time64 unit value
  bind_temporal_value (timestamp unit value) = ok (Value.int value)
  bind_temporal_value _ = err (DbError.other (codes "internal error: entered unreachable code"))

  unfoldable pub bind_arrow_value : ArrowCell F → Result (Value F)
  bind_arrow_value ArrowCell.null = ok Value.null
  bind_arrow_value (ArrowCell.boolean value) = ok (Value.boolean value)
  bind_arrow_value (int8 value) = ok (Value.int value)
  bind_arrow_value (int16 value) = ok (Value.int value)
  bind_arrow_value (int32 value) = ok (Value.int value)
  bind_arrow_value (int64 value) = ok (Value.int value)
  bind_arrow_value (uint8 value) = ok (Value.int (pos value))
  bind_arrow_value (uint16 value) = ok (Value.int (pos value))
  bind_arrow_value (uint32 value) = ok (Value.int (pos value))
  bind_arrow_value (uint64 value) = elim (i64_try_from value) [
    | none ↦ err (DbError.invalid_argument (codes "UInt64 value does not fit in SQLite INTEGER"))
    | some number ↦ ok (Value.int number)
  ]
  bind_arrow_value (float32 value) = ok (Value.float (F.widen value))
  bind_arrow_value (float64 value) = ok (Value.float value)
  bind_arrow_value (utf8 value) = ok (Value.text value)
  bind_arrow_value (large_utf8 value) = ok (Value.text value)
  bind_arrow_value (ArrowCell.binary value) = ok (Value.bytes value)
  bind_arrow_value (large_binary value) = ok (Value.bytes value)
  bind_arrow_value (date32 value) = bind_temporal_value (date32 value)
  bind_arrow_value (date64 value) = bind_temporal_value (date64 value)
  bind_arrow_value (time32 unit value) = bind_temporal_value (time32 unit value)
  bind_arrow_value (time64 unit value) = bind_temporal_value (time64 unit value)
  bind_arrow_value (timestamp unit value) = bind_temporal_value (timestamp unit value)
  bind_arrow_value (unsupported type) = err (unsupported_type type)
