-- ===== src/Backend/Tests.antt =====
-- A small database, rows and decoder, and the theorems on insertions and streamed queries at them.
use fsspec_db.Prelude.{
  ℕ, zero, suc, ◌+◌, ◌≡◌, refl, true, false, Option, none, some, List, [], ◌∷◌, length, arith,
}
use fsspec_db.Prelude.Text.{Text, codes, member, to_ascii_lowercase, lower_char}
use fsspec_db.Prelude.Int.{ℤ, pos, print_int}
use fsspec_db.Error.{DbError, SqlxError, Result, ok, err, collect}
use fsspec_db.Types.{RelationInfo, RelationKind, ColumnInfo, postgres}
use fsspec_db.Stream.Codec.{Item, batch}
use fsspec_db.Fs.Database.{InsertMode}
use fsspec_db.Backend.Driver.{Floats, Driver, Raw, Reply, done, failed, Table, Value}
use fsspec_db.Backend.Insert.{
  Target, insert, insert_open, insert_batches, write_table, check_columns, valid_names, clear_first,
  after_commit,
}
use fsspec_db.Backend.Write.{bind_rows, bind_rows-placeholders}
use fsspec_db.Backend.Worker.{Decoder, stream_query, stream_thread}
use fsspec_db.Backend.Delivers.{Delivers, answer}
use fsspec_db.Backend.Query.{stream_query-Delivers}
use fsspec_db.Backend.Answers.{stream_thread-schemas}
use fsspec_db.Sql.Statements.{all_placeholders}
use fsspec_db.Sql.Placeholders.{concat}

abbrev users : RelationInfo
users = record {
  name = codes "users";
  kind = RelationKind.table;
  row_count = none;
  size_bytes = none;
  comment = none;
}

abbrev id_column : ColumnInfo
id_column = record {
  name = codes "Id";
  data_type = codes "INTEGER";
  nullable = false;
  default = none;
  ordinal = 1;
  primary_key = true;
  comment = none;
}

-- a table of one column, which only knows how many rows it has
abbrev counter : Target ℕ
counter = record {
  Pool = ℕ;
  Tx = ℕ;
  relation_info = λ pool schema relation. ok users;
  table_columns = λ pool schema relation. ok (id_column ∷ []);
  begin = λ pool. ok pool;
  clear = λ schema relation tx. ok 0;
  write = λ schema relation table tx. ok (length table.rows, tx + length table.rows);
  commit = λ tx. (ok tt, tx);
}

abbrev ids : List Text → List (List ℕ) → Item (Table ℕ)
ids columns rows = batch (record { columns = columns; rows = rows })

abbrev two_batches : List (Item (Table ℕ))
two_batches =
    ids (codes "ID" ∷ []) ((1 ∷ []) ∷ (2 ∷ []) ∷ [])
    ∷ ids (codes "other" ∷ []) []
    ∷ ids (codes "id" ∷ []) ((3 ∷ []) ∷ [])
    ∷ []

inserted_three :
    insert counter (codes "main") (codes "users") 7 two_batches InsertMode.truncate ≡ (ok 3, 3)
unfolding insert insert_open insert_batches write_table check_columns valid_names clear_first
    after_commit member to_ascii_lowercase lower_char
inserted_three = refl

abbrev wrong_column : List (Item (Table ℕ))
wrong_column = ids (codes "id" ∷ []) ((1 ∷ []) ∷ []) ∷ ids (codes "no" ∷ []) ((2 ∷ []) ∷ []) ∷ []

abbrev no_column : DbError
no_column = DbError.invalid_argument (codes "column not found in main.users: no")

inserted_none :
    insert counter (codes "main") (codes "users") 7 wrong_column InsertMode.append
    ≡ (err no_column, 7)
unfolding insert insert_open insert_batches write_table check_columns valid_names clear_first
    after_commit member to_ascii_lowercase lower_char
inserted_none = refl

-- rows that are numbers, in batches that are lists of them
abbrev numbers : Decoder
numbers = record {
  Row = ℕ;
  Metadata = Text;
  Schema = Text;
  Batch = List ℕ;
  column_metadata = λ row. codes "n";
  rows_to_batch = λ metadata rows. ok rows;
  batch_schema = λ rows. codes "n";
  query_schema = ok (codes "n");
  new_empty = λ schema. [];
}

stream_query-Delivers_example :
    (out : List (Result (List ℕ))) × Delivers
      (λ rows. rows)
      (some SqlxError.row_not_found)
      (4 ∷ 5 ∷ [])
      out
    × (stream_query numbers (codes "SQLite") (4 ∷ 5 ∷ []) (some SqlxError.row_not_found) 9
        ≡ answer numbers out)
stream_query-Delivers_example =
    stream_query-Delivers numbers (codes "SQLite") 4 (5 ∷ []) (some SqlxError.row_not_found) 9
      (λ rows. rows) (λ chunk. refl) (omega arith)

stream_thread-schemas_example :
    (s : Result Text) × ((stream_thread numbers (4 ∷ 5 ∷ []) none 0).schemas ≡ s ∷ [])
stream_thread-schemas_example = stream_thread-schemas numbers (4 ∷ 5 ∷ []) none 0

-- floating-point numbers that are integers
abbrev pub whole : Floats
whole = record {
  Float = ℤ;
  Single = ℤ;
  widen = λ x. x;
  of_int = λ x. x;
  zero = pos 0;
  one = pos 1;
  show = print_int;
}

abbrev bind_number : ℕ → Result (Value whole)
bind_number n = ok (Value.int (pos n))

two_bound :
    bind_rows bind_number ((4 ∷ []) ∷ (5 ∷ []) ∷ [])
    ≡ ok (Value.int (pos 4) ∷ Value.int (pos 5) ∷ [])
unfolding bind_rows collect
two_bound = refl

bind_rows-placeholders_example : 2 ≡ length (concat (all_placeholders postgres 2 1 1))
bind_rows-placeholders_example =
    bind_rows-placeholders bind_number postgres 1 ((4 ∷ []) ∷ (5 ∷ []) ∷ [])
      (Value.int (pos 4) ∷ Value.int (pos 5) ∷ []) (refl, (refl, tt)) two_bound

-- a row of values, which fails for what it does not have
abbrev pub Cells : Type 0
Cells = List (Raw × Value whole)

abbrev lost : {A : Type 0} → Reply A
lost = failed SqlxError.row_not_found

abbrev cell_at : ℕ → Cells → Option (Raw × Value whole)
cell_at n [] = none
cell_at zero (c ∷ cs) = some c
cell_at (suc n) (c ∷ cs) = cell_at n cs

abbrev raw_of : Option (Raw × Value whole) → Reply Raw
raw_of none = lost
raw_of (some c) = done c.0

abbrev int_of : Option (Raw × Value whole) → Reply ℤ
int_of (some (raw, Value.int n)) = done n
int_of _ = lost

abbrev text_of : Option (Raw × Value whole) → Reply Text
text_of (some (raw, Value.text t)) = done t
text_of _ = lost

-- a driver that knows integers and texts
abbrev pub cells : Driver whole
cells = record {
  Pool = ℕ;
  Row = Cells;
  Tx = ℕ;
  fetch_all = λ pool sql args. done [];
  fetch_optional = λ pool sql args. done none;
  fetch_one = λ pool sql args. lost;
  fetch = λ pool sql args. ([], none);
  columns = λ row. [];
  prepare = λ pool sql. done [];
  get_text = λ name row. lost;
  get_int = λ name row. lost;
  get_optional_text = λ name row. lost;
  get_optional_int = λ name row. lost;
  get_flag = λ name row. lost;
  get_unsigned = λ name row. lost;
  get_optional_unsigned = λ name row. lost;
  raw = λ row index. raw_of (cell_at index row);
  bool_at = λ row index. lost;
  int_at = λ row index. int_of (cell_at index row);
  float_at = λ row index. int_of (cell_at index row);
  text_at = λ row index. text_of (cell_at index row);
  bytes_at = λ row index. lost;
  unsigned_at = λ row index. lost;
  single_at = λ row index. lost;
  date_at = λ row index. lost;
  time_at = λ row index. lost;
  utc_at = λ row index. lost;
  naive_at = λ row index. lost;
  decimal_at = λ row index. lost;
  uuid_at = λ row index. lost;
  json_at = λ row index. lost;
  begin = λ pool. done pool;
  execute = λ sql args tx. done (1, suc tx);
  copy_in = λ sql bytes tx. done (1, suc tx);
  commit = λ tx. (done tt, tx);
}

abbrev pub int_cell : Text → ℤ → Raw × Value whole
int_cell type n = (record { is_null = false; type_name = type }, Value.int n)

abbrev pub text_cell : Text → Text → Raw × Value whole
text_cell type t = (record { is_null = false; type_name = type }, Value.text t)

abbrev pub null_cell : Text → Raw × Value whole
null_cell type = (record { is_null = true; type_name = type }, Value.null)
