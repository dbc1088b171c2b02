-- ===== src/Backend/Rows.antt =====
-- The rows of a query as a batch, in rust/src/sqlite.rs, rust/src/mysql.rs and rust/src/postgres.rs,
-- which are the same up to the names and their `ColumnValues`.
use fsspec_db.Prelude.{ℕ, suc, Bool, List, [], ◌∷◌, ◌++◌, map, if◌then◌else◌}
use fsspec_db.Prelude.Text.{Text}
use fsspec_db.Error.{DbError, Result, ok, err, ◌>>=◌}
use fsspec_db.Stream.Codec.{Item, batch, broken}
use fsspec_db.Backend.Driver.{Floats, Driver, lift}
use fsspec_db.Fs.Options.{DataType}
use fsspec_db.Fs.Write.{Field}

-- `ColumnValues` of a back end
pub record ColumnOps {F : Floats} (D : Driver F) : Type 1 where
  pub Values : Type 0
  pub new : List Text → Values
  pub push : D.Row → ℕ → Values → Result Values
  pub data_type : Values → DataType

-- `?` on what Arrow gives
abbrev pub lift_arrow : {Batch : Type 0} → Item Batch → Result Batch
lift_arrow (batch b) = ok b
lift_arrow (broken e) = err (DbError.arrow e)

abbrev pub nullable_field : Text → DataType → Field
nullable_field name type = record { name = name; data_type = type; nullable = Bool.true }

module _ {F : Floats} {D : Driver F} (C : ColumnOps D) where
  -- `names.iter().zip(&columns)`, as fields
  unfoldable pub zip_fields : List Text → List C.Values → List Field
  zip_fields [] columns = []
  zip_fields (name ∷ names) [] = []
  zip_fields (name ∷ names) (values ∷ columns) =
      nullable_field name (C.data_type values) ∷ zip_fields names columns

  -- the fields of `sqlite_schema`: a column by its declared type alone
  unfoldable pub schema_fields : List (Text × Text) → List Field
  schema_fields [] = []
  schema_fields ((name, type_name) ∷ metadata) =
      nullable_field name (C.data_type (C.new (type_name ∷ []))) ∷ schema_fields metadata

  unfoldable pub push_row : D.Row → ℕ → List C.Values → Result (List C.Values)
  push_row row index [] = ok []
  push_row row index (values ∷ rest) = do
    pushed ← C.push row index values
    more ← push_row row (suc index) rest
    ok (pushed ∷ more)

  unfoldable pub push_rows : List D.Row → List C.Values → Result (List C.Values)
  push_rows [] columns = ok columns
  push_rows (row ∷ rows) columns = do pushed ← push_row row 0 columns; push_rows rows pushed

module _ {F : Floats} (D : Driver F) where
  -- the types of the values of one row, behind those that are known, from a column on
  unfoldable pub add_row : D.Row → ℕ → List (List Text) → Result (List (List Text))
  add_row row index [] = ok []
  add_row row index (names ∷ rest) = do
    raw ← lift (D.raw row index)
    more ← add_row row (suc index) rest
    ok ((if raw.is_null then names else names ++ raw.type_name ∷ []) ∷ more)

  unfoldable pub add_rows : List D.Row → List (List Text) → Result (List (List Text))
  add_rows [] types = ok types
  add_rows (row ∷ rows) types = do added ← add_row row 0 types; add_rows rows added

module _ {F : Floats} {D : Driver F} (C : ColumnOps D) where
  -- the columns of a chunk
  unfoldable pub decode_rows : List (Text × Text) → List D.Row → Result (List C.Values)
  decode_rows metadata rows = do
    type_names ← add_rows D rows (map (λ (column : Text × Text). column.1 ∷ []) metadata)
    push_rows C rows (map C.new type_names)

  -- `try_new` is `RecordBatch::try_new` of Arrow
  unfoldable pub rows_to_batch :
      {Batch : Type 0}
      → (List Field → List C.Values → Item Batch)
      → List (Text × Text)
      → List D.Row
      → Result Batch
  rows_to_batch try_new metadata rows = do
    columns ← decode_rows metadata rows
    let names = map (λ (column : Text × Text). column.0) metadata
    lift_arrow (try_new (zip_fields C names columns) columns)
