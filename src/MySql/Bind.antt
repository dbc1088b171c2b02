-- ===== src/MySql/Bind.antt =====
-- rust/src/mysql.rs: the cells of Arrow as MySQL's values.
-- `debug` is the debug text of the type of a cell's array.
use fsspec_db.Prelude.{◌++◌}
use fsspec_db.Prelude.Text.{Text, codes}
use fsspec_db.Prelude.Int.{pos}
use fsspec_db.Error.{DbError, Result, ok, err}
use fsspec_db.Backend.Driver.{
  Floats, Value, ArrowCell, int8, int16, int32, int64, uint8, uint16, uint32, uint64, float32,
  float64, utf8, large_utf8, large_binary, unsupported,
}

abbrev unsupported_type : Text → DbError
unsupported_type type =
    DbError.not_supported (codes "MySQL insert does not support Arrow type " ++ type)

module _ {F : Floats} (debug : ArrowCell F → Text) where
  unfoldable pub bind_arrow_value : ArrowCell F → Result (Value F)
  bind_arrow_value ArrowCell.null = ok Value.null
  bind_arrow_value (ArrowCell.boolean value) = ok (Value.boolean value)
  bind_arrow_value (int8 value) = ok (Value.int value)
  bind_arrow_value (int16 value) = ok (Value.int value)
  bind_arrow_value (int32 value) = ok (Value.int value)
  bind_arrow_value (int64 value) = ok (Value.int value)
  bind_arrow_value (uint8 value) = ok (Value.int (pos value))
  bind_arrow_value (uint16 value) = ok (Value.int (pos value))
  bind_arrow_value (uint32 value) = ok (Value.int (pos value))
  bind_arrow_value (uint64 value) = ok (Value.int (pos value))
  bind_arrow_value (float32 value) = ok (Value.single value)
  bind_arrow_value (float64 value) = ok (Value.float value)
  bind_arrow_value (utf8 value) = ok (Value.text value)
  bind_arrow_value (large_utf8 value) = ok (Value.text value)
  bind_arrow_value (ArrowCell.binary value) = ok (Value.bytes value)
  bind_arrow_value (large_binary value) = ok (Value.bytes value)
  bind_arrow_value (unsupported type) = err (unsupported_type type)
  bind_arrow_value temporal = err (unsupported_type (debug temporal))
