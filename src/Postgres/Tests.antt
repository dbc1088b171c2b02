-- ===== src/Postgres/Tests.antt =====
-- The COPY texts of the unit test `builds_postgres_copy_input`, a chunk of rows, and the theorems at
-- them.
use fsspec_db.Prelude.{◌≡◌, refl, none, some, List, [], ◌∷◌, arith}
use fsspec_db.Prelude.Text.{codes, join, replace}
use fsspec_db.Error.{ok, collect}
use fsspec_db.Sql.Statements.{quote_identifier, has_nul}
use fsspec_db.Postgres.Copy.{hex_char, hex_digits, postgres_bytea_hex, copy_in_sql}
use fsspec_db.Prelude.Text.{Text, member, to_ascii_uppercase}
use fsspec_db.Prelude.Int.{pos}
use fsspec_db.Backend.Rows.{
  decode_rows, add_rows, add_row, push_rows, push_row, zip_fields, schema_fields,
}
use fsspec_db.Backend.Tests.{Cells, cells, int_cell, null_cell}
use fsspec_db.Postgres.Columns.{
  int64, utf8, first_type, of_type, new, push, push_null, push_decoded, postgres_columns,
}
use fsspec_db.Postgres.Typed.{postgres_fields_lem}
use fsspec_db.Postgres.Hex.{read_bytea, read_bytea-postgres_bytea_hex}

bytea : postgres_bytea_hex (0 ∷ 255 ∷ 16 ∷ []) ≡ codes "\\x00ff10"
unfolding postgres_bytea_hex hex_digits hex_char
bytea = refl

copy_users :
    copy_in_sql (λ s. s) (codes "public") (codes "users") (codes "id" ∷ codes "name" ∷ [])
    ≡ ok (
        codes
          "COPY \"public\".\"users\" (\"id\", \"name\") FROM STDIN WITH (FORMAT csv, NULL '\\N')")
unfolding copy_in_sql quote_identifier has_nul collect join replace
copy_users = refl

read_bytea-postgres_bytea_hex_example :
    read_bytea (postgres_bytea_hex (0 ∷ 255 ∷ 16 ∷ [])) ≡ some (0 ∷ 255 ∷ 16 ∷ [])
read_bytea-postgres_bytea_hex_example =
    read_bytea-postgres_bytea_hex (0 ∷ 255 ∷ 16 ∷ []) (omega arith)

-- a chunk with declared types, one value null
abbrev postgres_rows : List Cells
postgres_rows = (int_cell (codes "INT8") (pos 7) ∷ null_cell (codes "TEXT") ∷ []) ∷ []

abbrev postgres_metadata : List (Text × Text)
postgres_metadata = (codes "id", codes "INT8") ∷ (codes "name", codes "TEXT") ∷ []

postgres_decoded :
    decode_rows (postgres_columns cells) postgres_metadata postgres_rows
    ≡ ok (int64 (some (pos 7) ∷ []) ∷ utf8 (none ∷ []) ∷ [])
unfolding decode_rows add_rows add_row push_rows push_row new first_type of_type push push_null
    push_decoded to_ascii_uppercase member
postgres_decoded = refl

postgres_fields_lem_example :
    zip_fields
      (postgres_columns cells)
      (codes "id" ∷ codes "name" ∷ [])
      (int64 (some (pos 7) ∷ []) ∷ utf8 (none ∷ []) ∷ [])
    ≡ schema_fields (postgres_columns cells) postgres_metadata
postgres_fields_lem_example =
    postgres_fields_lem cells postgres_metadata postgres_rows
      (int64 (some (pos 7) ∷ []) ∷ utf8 (none ∷ []) ∷ []) postgres_decoded
