-- ===== src/Postgres/Typed.antt =====
-- The type of a column is the declared one: see Backend/Typed.
use fsspec_db.Prelude.{ℕ, ◌≡◌, refl, sym, ap, ◌∙◌, inl, inr, List, map, Bool-cases}
use fsspec_db.Prelude.Text.{Text}
use fsspec_db.Error.{Result, ok, ok_injective, err-ok, ◌>>=◌, >>=-eq-ok}
use fsspec_db.Backend.Driver.{Floats, Driver, lift}
use fsspec_db.Backend.Rows.{zip_fields, schema_fields, decode_rows}
use fsspec_db.Backend.Typed.{IsDeclared, decode_rows-fields}
use fsspec_db.Postgres.Columns.{
  ColumnValues, bool, int16, int32, int64, float32, float64, binary, utf8, date32, time64,
  timestamp, text, unsupported, first_type, new, push_null, push_decoded, push, data_type,
  postgres_columns,
}

module _ {F : Floats} (D : Driver F) where
  null_type : (values : ColumnValues F) → data_type (push_null values) ≡ data_type values
  unfolding data_type push_null
  null_type (bool values) = refl
  null_type (int16 values) = refl
  null_type (int32 values) = refl
  null_type (int64 values) = refl
  null_type (float32 values) = refl
  null_type (float64 values) = refl
  null_type (binary values) = refl
  null_type (utf8 values) = refl
  null_type (date32 values) = refl
  null_type (time64 values) = refl
  null_type (timestamp values) = refl
  null_type (text kind values) = refl
  null_type (unsupported name values) = refl

  -- a value behind the others of its column
  of_value :
      {A : Type 0} (m : Result A) (f : A → ColumnValues F) (values after : ColumnValues F)
      → ((a : A) → data_type (f a) ≡ data_type values)
      → (m >>= (λ a. ok (f a))) ≡ ok after
      → data_type after ≡ data_type values
  of_value m f values after same h =
      let (a, p, q) = >>=-eq-ok m _ h in ap data_type (ok_injective (sym q)) ∙ same a

  decoded_type :
      (row : D.Row) (index : ℕ) (values after : ColumnValues F)
      → push_decoded D row index values ≡ ok after
      → data_type after ≡ data_type values
  unfolding push_decoded data_type
  decoded_type row index (bool values) after h = of_value _ _ (bool values) after (λ a. refl) h
  decoded_type row index (int16 values) after h = of_value _ _ (int16 values) after (λ a. refl) h
  decoded_type row index (int32 values) after h = of_value _ _ (int32 values) after (λ a. refl) h
  decoded_type row index (int64 values) after h = of_value _ _ (int64 values) after (λ a. refl) h
  decoded_type row index (float32 values) after h =
      of_value _ _ (float32 values) after (λ a. refl) h
  decoded_type row index (float64 values) after h =
      of_value _ _ (float64 values) after (λ a. refl) h
  decoded_type row index (binary values) after h = of_value _ _ (binary values) after (λ a. refl) h
  decoded_type row index (utf8 values) after h = of_value _ _ (utf8 values) after (λ a. refl) h
  decoded_type row index (date32 values) after h = of_value _ _ (date32 values) after (λ a. refl) h
  decoded_type row index (time64 values) after h = of_value _ _ (time64 values) after (λ a. refl) h
  decoded_type row index (timestamp values) after h =
      of_value _ _ (timestamp values) after (λ a. refl) h
  decoded_type row index (text kind values) after h =
      of_value _ _ (text kind values) after (λ a. refl) h
  decoded_type row index (unsupported name values) after h = absurd (err-ok h)

  push_type :
      (row : D.Row) (index : ℕ) (values after : ColumnValues F)
      → push D row index values ≡ ok after
      → data_type after ≡ data_type values
  unfolding push
  push_type row index values after h =
      let (raw, p, h₁) = >>=-eq-ok (lift (D.raw row index)) _ h in
      elim (Bool-cases raw.is_null) [
        | inl e ↦ ap data_type (ok_injective (sym (rw e at h₁))) ∙ null_type values
        | inr e ↦ decoded_type row index values after (rw e at h₁)
      ]

  IsDeclared-columns : IsDeclared (postgres_columns D)
  unfolding new first_type
  IsDeclared-columns = record { keeps = push_type; first = λ name names. refl }

  -- Whatever rows a chunk of a query to Postgres has, its batch has the fields that the schema of the
  -- prepared statement has.
  pub postgres_fields_lem :
      (metadata : List (Text × Text)) (rows : List D.Row) (columns : List (ColumnValues F))
      → decode_rows (postgres_columns D) metadata rows ≡ ok columns
      → zip_fields (postgres_columns D) (map (λ (column : Text × Text). column.0) metadata) columns
        ≡ schema_fields (postgres_columns D) metadata
  postgres_fields_lem metadata rows columns h =
      decode_rows-fields (postgres_columns D) IsDeclared-columns metadata rows columns h
