-- ===== src/Postgres/Copy.antt =====
-- rust/src/postgres.rs: the COPY statement and its data.
use fsspec_db.Prelude.{
  ℕ, suc, ◌/◌, ◌%◌, ◌+◌, Bool, true, false, Option, none, some, List, [], ◌∷◌, ◌++◌, leb, ltb,
  if◌then◌else◌, is_empty,
}
use fsspec_db.Prelude.Text.{Text, codes, join}
use fsspec_db.Prelude.Utf8.{encode}
use fsspec_db.Prelude.Decimal.{print}
use fsspec_db.Error.{DbError, Result, ok, err, ◌>>=◌, collect}
use fsspec_db.Types.{postgres}
use fsspec_db.Sql.Statements.{quote_identifier}
use fsspec_db.Stream.Codec.{Bytes}

-- a cell of an Arrow array: null, or a value of the array's type; a signed number as n or -1 - n, and
-- a floating-point number by the text it displays as, an unsupported type by its debug text
pub data Cell : Type 0 where
  null : Cell
  boolean : Bool → Cell
  int int_before : ℕ → Cell
  uint64 : ℕ → Cell
  float : Text → Cell
  utf8 : Text → Cell
  binary : Bytes → Cell
  unsupported : Text → Cell

unfoldable pub hex_char : ℕ → ℕ
hex_char n = if ltb n 10 then n + b'0' else n + 87

-- the loop of `postgres_bytea_hex`: two lower-case digits for a byte
unfoldable pub hex_digits : Bytes → Text
hex_digits [] = []
hex_digits (b ∷ bytes) = hex_char (b / 16) ∷ hex_char (b % 16) ∷ hex_digits bytes

unfoldable pub postgres_bytea_hex : Bytes → Text
postgres_bytea_hex value = codes "\\x" ++ hex_digits value

unfoldable pub copy_csv_value : Cell → Result (Option Text)
copy_csv_value null = ok none
copy_csv_value (boolean true) = ok (some (codes "true"))
copy_csv_value (boolean false) = ok (some (codes "false"))
copy_csv_value (int n) = ok (some (print n))
copy_csv_value (int_before n) = ok (some (b'-' ∷ print (suc n)))
copy_csv_value (uint64 n) =
    if leb n 9223372036854775807
    then ok (some (print n))
    else err (DbError.invalid_argument (codes "UInt64 value does not fit in Postgres BIGINT"))
copy_csv_value (float text) = ok (some text)
copy_csv_value (utf8 text) = ok (some text)
copy_csv_value (binary bytes) = ok (some (postgres_bytea_hex bytes))
copy_csv_value (unsupported type) =
    err (DbError.not_supported (codes "Postgres insert does not support Arrow type " ++ type))

-- Over what `csv_core` writes for a field that is always quoted.
module _ (escaped_field : Bytes → Bytes) where
  unfoldable pub copy_cell : Cell → Result Bytes
  copy_cell cell = do
    value ← copy_csv_value cell
    ok (elim value [ none ↦ codes "\\N" | some text ↦ escaped_field (encode text) ])

  unfoldable pub copy_row : List Cell → Result Bytes
  copy_row row = do fields ← collect copy_cell row; ok (join (codes ",") fields ++ codes "\n")

  -- the rows of a batch, each with its cells by column
  unfoldable pub batch_to_copy_csv : List (List Cell) → Result Bytes
  batch_to_copy_csv [] = ok []
  batch_to_copy_csv (row ∷ rows) = do
    line ← copy_row row
    rest ← batch_to_copy_csv rows
    ok (line ++ rest)

module _ (debug : Text → Text) where
  unfoldable pub copy_in_sql : Text → Text → List Text → Result Text
  copy_in_sql schema relation columns =
      if is_empty columns
      then err (DbError.invalid_argument (codes "COPY requires at least one column"))
      else (do
        s ← quote_identifier debug postgres schema
        r ← quote_identifier debug postgres relation
        names ← collect (quote_identifier debug postgres) columns
        ok (
            codes "COPY "
            ++ (s
                ++ (codes "."
                    ++ (r
                        ++ (codes " ("
                            ++ (join (codes ", ") names
                                ++ codes ") FROM STDIN WITH (FORMAT csv, NULL '\\N')")))))))
