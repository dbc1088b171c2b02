-- ===== src/MySql/Tests.antt =====
-- A chunk of rows from MySQL, and the theorem at it.
use fsspec_db.Prelude.{◌≡◌, refl, none, some, List, [], ◌∷◌}
use fsspec_db.Prelude.Text.{codes}
use fsspec_db.Error.{ok}
use fsspec_db.Prelude.Text.{Text, member, to_ascii_uppercase}
use fsspec_db.Prelude.Int.{pos}
use fsspec_db.Backend.Rows.{
  decode_rows, add_rows, add_row, push_rows, push_row, zip_fields, schema_fields,
}
use fsspec_db.Backend.Tests.{Cells, cells, int_cell, null_cell}
use fsspec_db.MySql.Columns.{
  signed_int, utf8, first_type, of_type, new, push, push_null, push_decoded, mysql_columns,
}
use fsspec_db.MySql.Typed.{mysql_fields_lem}

-- a chunk with declared types, one value null
abbrev mysql_rows : List Cells
mysql_rows = (int_cell (codes "BIGINT") (pos 7) ∷ null_cell (codes "VARCHAR") ∷ []) ∷ []

abbrev mysql_metadata : List (Text × Text)
mysql_metadata = (codes "id", codes "BIGINT") ∷ (codes "name", codes "VARCHAR") ∷ []

mysql_decoded :
    decode_rows (mysql_columns cells) mysql_metadata mysql_rows
    ≡ ok (signed_int (some (pos 7) ∷ []) ∷ utf8 (none ∷ []) ∷ [])
unfolding decode_rows add_rows add_row push_rows push_row new first_type of_type push push_null
    push_decoded to_ascii_uppercase member
mysql_decoded = refl

mysql_fields_lem_example :
    zip_fields
      (mysql_columns cells)
      (codes "id" ∷ codes "name" ∷ [])
      (signed_int (some (pos 7) ∷ []) ∷ utf8 (none ∷ []) ∷ [])
    ≡ schema_fields (mysql_columns cells) mysql_metadata
mysql_fields_lem_example =
    mysql_fields_lem cells mysql_metadata mysql_rows
      (signed_int (some (pos 7) ∷ []) ∷ utf8 (none ∷ []) ∷ []) mysql_decoded
