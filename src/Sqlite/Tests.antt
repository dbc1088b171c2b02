-- ===== src/Sqlite/Tests.antt =====
-- Chunks of rows from SQLite: as in the unit tests of rust/src/sqlite.rs, a column takes the values of the
-- types that are found, and a chunk whose values are all null has the declared type.
use fsspec_db.Prelude.{
  ℕ, zero, suc, ◌<◌, ◌≡◌, refl, sym, true, false, none, some, List, [], ◌∷◌, length, All, arith,
}
use fsspec_db.Prelude.Text.{
  Text, codes, contains, split_once, strip_prefix, to_ascii_lowercase, lower_char,
}
use fsspec_db.Prelude.Int.{pos, print_int, i64_try_from}
use fsspec_db.Prelude.Decimal.{print, digits}
use fsspec_db.Error.{DbError, ok, err}
use fsspec_db.Stream.Codec.{Bytes}
use fsspec_db.Backend.Driver.{uint64}
use fsspec_db.Backend.Rows.{decode_rows, add_rows, add_row, push_rows, push_row, zip_fields}
use fsspec_db.Backend.Tests.{whole, Cells, cells, int_cell, text_cell, null_cell}
use fsspec_db.Fs.Options.{DataType}
use fsspec_db.Sqlite.Bind.{bind_arrow_value}
use fsspec_db.Sqlite.Catalogue.{sqlite_url, sort_by_seq, insert_by_seq}
use fsspec_db.Sqlite.Columns.{
  ColumnValues, utf8, int64, new, new_lower, push, push_null, push_decoded, data_type,
  decode_sqlite_utf8, decode_sqlite_i64, sqlite_columns,
}
use fsspec_db.Sqlite.Decodes.{count, Decodable}
use fsspec_db.Sqlite.Chunks.{decode_rows-counts}
use fsspec_db.Sqlite.Covers.{Readable}

abbrev no_lossy : Bytes → Text
no_lossy bytes = bytes

-- a column declared INTEGER in which a text stands
abbrev rows : List Cells
rows =
    (int_cell (codes "INTEGER") (pos 7) ∷ [])
    ∷ (text_cell (codes "TEXT") (codes "x") ∷ [])
    ∷ (null_cell (codes "NULL") ∷ [])
    ∷ []

abbrev metadata : List (Text × Text)
metadata = (codes "v", codes "INTEGER") ∷ []

mixed :
    decode_rows (sqlite_columns cells no_lossy) metadata rows
    ≡ ok (utf8 (some (codes "7") ∷ some (codes "x") ∷ none ∷ []) ∷ [])
unfolding decode_rows add_rows add_row push_rows push_row new new_lower push push_null push_decoded
    decode_sqlite_utf8 to_ascii_lowercase lower_char contains split_once strip_prefix print_int
    print digits
mixed = refl

-- The batches of one query may have different fields: the type of a chunk depends on its values.
first_fields :
    zip_fields (sqlite_columns cells no_lossy) (codes "v" ∷ []) (utf8 [] ∷ [])
    ≡ record { name = codes "v"; data_type = DataType.utf8; nullable = true } ∷ []
unfolding zip_fields data_type
first_fields = refl

integer_only :
    decode_rows
      (sqlite_columns cells no_lossy)
      metadata
      ((int_cell (codes "INTEGER") (pos 7) ∷ []) ∷ [])
    ≡ ok (int64 (some (pos 7) ∷ []) ∷ [])
unfolding decode_rows add_rows add_row push_rows push_row new new_lower push push_null push_decoded
    decode_sqlite_i64 to_ascii_lowercase lower_char contains split_once strip_prefix
integer_only = refl

false_true : {A : Type 0} → ◌≡◌ false true → A
false_true h = absurd cc

int_Decodable :
    (n : ℕ) → Decodable cells (int_cell (codes "INTEGER") (pos n) ∷ []) 0 (codes "integer")
unfolding contains split_once strip_prefix
int_Decodable n = record {
  classified = refl;
  texts = λ h. false_true h;
  blobs = λ h. false_true h;
  reals = λ h. false_true h;
  bools = λ h. false_true h;
  ints = λ h. (pos n, refl);
}

text_Decodable : (t : Text) → Decodable cells (text_cell (codes "TEXT") t ∷ []) 0 (codes "text")
unfolding contains split_once strip_prefix
text_Decodable t = record {
  classified = refl;
  texts = λ h. (t, refl);
  blobs = λ h. false_true h;
  reals = λ h. false_true h;
  bools = λ h. false_true h;
  ints = λ h. false_true h;
}

int_Readable : (n i : ℕ) → i < 1 → Readable cells (int_cell (codes "INTEGER") (pos n) ∷ []) i
unfolding to_ascii_lowercase lower_char
int_Readable n zero h = (_, refl, λ live. int_Decodable n)
int_Readable n (suc i) h = absurd (omega arith)

text_Readable : (t : Text) (i : ℕ) → i < 1 → Readable cells (text_cell (codes "TEXT") t ∷ []) i
unfolding to_ascii_lowercase lower_char
text_Readable t zero h = (_, refl, λ live. text_Decodable t)
text_Readable t (suc i) h = absurd (omega arith)

null_Readable : (i : ℕ) → i < 1 → Readable cells (null_cell (codes "NULL") ∷ []) i
null_Readable zero h = (_, refl, λ live. false_true (sym live))
null_Readable (suc i) h = absurd (omega arith)

decode_rows-counts_example :
    (columns : List (ColumnValues whole)) × (decode_rows
        (sqlite_columns cells no_lossy)
        metadata
        rows
      ≡ ok columns)
    × (length columns ≡ 1)
    × All (λ values. count values ≡ 3) columns
decode_rows-counts_example =
    decode_rows-counts cells no_lossy metadata rows
      (int_Readable 7, (text_Readable (codes "x"), (null_Readable, tt)))

too_large :
    bind_arrow_value {F = whole} (λ cell. codes "") (uint64 9223372036854775808)
    ≡ err (DbError.invalid_argument (codes "UInt64 value does not fit in SQLite INTEGER"))
unfolding bind_arrow_value i64_try_from
too_large = refl

url : sqlite_url (codes "/tmp/x.db") ≡ codes "sqlite:///tmp/x.db"
unfolding sqlite_url strip_prefix
url = refl

sorted :
    sort_by_seq ((pos 1, codes "b") ∷ (pos 0, codes "a") ∷ (pos 1, codes "c") ∷ [])
    ≡ (pos 0, codes "a") ∷ (pos 1, codes "b") ∷ (pos 1, codes "c") ∷ []
unfolding sort_by_seq insert_by_seq
sorted = refl
