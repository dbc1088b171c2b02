-- ===== src/Sqlite/Chunks.antt =====
-- A chunk of rows with values of SQLite's classes decodes, into columns of one length.
use fsspec_db.Prelude.{
  ℕ, suc, ◌+◌, ◌<◌, ◌≡◌, refl, sym, ap, subst, ◌∙◌, inl, inr, none, List, [], ◌∷◌, length, map, All,
  Bool-cases, arith,
}
use fsspec_db.Prelude.Text.{Text, to_ascii_lowercase}
use fsspec_db.Error.{ok}
use fsspec_db.Stream.Codec.{Bytes}
use fsspec_db.Backend.Driver.{Floats, Driver}
use fsspec_db.Sqlite.Columns.{
  ColumnValues, bool, int64, float64, binary, utf8, new, new_lower, push, push_null, data_type,
  sqlite_columns,
}
use fsspec_db.Backend.Rows.{push_row, push_rows, decode_rows}
use fsspec_db.Sqlite.Decodes.{count, push-Takes, length_snoc}
use fsspec_db.Sqlite.Covers.{lowered, Readable, Known, Covered, add_rows-Added}

count_new : (F : Floats) (names : List Text) → count (new {F = F} names) ≡ 0
unfolding new new_lower count
count_new F names = ground arith

module _ {F : Floats} where
  null_type : (values : ColumnValues F) → data_type (push_null values) ≡ data_type values
  unfolding data_type push_null
  null_type (bool values) = refl
  null_type (int64 values) = refl
  null_type (float64 values) = refl
  null_type (binary values) = refl
  null_type (utf8 values) = refl

  null_count : (values : ColumnValues F) → count (push_null values) ≡ suc (count values)
  unfolding count push_null
  null_count (bool values) = length_snoc values none
  null_count (int64 values) = length_snoc values none
  null_count (float64 values) = length_snoc values none
  null_count (binary values) = length_snoc values none
  null_count (utf8 values) = length_snoc values none

length-map : {A B : Type 0} (f : A → B) (xs : List A) → length (map f xs) ≡ length xs
length-map f [] = refl
length-map f (x ∷ xs) = ap suc (length-map f xs)

-- The columns have the types that their names choose, and `n` values each.
data Fits {F : Floats} (n : ℕ) : List (ColumnValues F) → List (List Text) → Type 0 where
  empty : Fits n [] []
  next :
      {values : ColumnValues F} {columns : List (ColumnValues F)} {names : List Text}
      {types : List (List Text)}
      → data_type values ≡ data_type (new {F = F} names)
      → count values ≡ n
      → Fits n columns types
      → Fits n (values ∷ columns) (names ∷ types)

new-Fits : {F : Floats} (types : List (List Text)) → Fits {F = F} 0 (map new types) types
new-Fits [] = empty
new-Fits (names ∷ types) = next refl (count_new _ names) (new-Fits types)

Fits-counts :
    {F : Floats} (n : ℕ) (columns : List (ColumnValues F)) (types : List (List Text))
    → Fits n columns types
    → (length columns ≡ length types) × All (λ values. count values ≡ n) columns
Fits-counts n [] [] empty = (refl, tt)
Fits-counts n [] (names ∷ types) h = elim h [ ]
Fits-counts n (values ∷ columns) [] h = elim h [ ]
Fits-counts n (values ∷ columns) (names ∷ types) (next t c h) =
    let (l, a) = Fits-counts n columns types h in (ap suc l, (c, a))

module _ {F : Floats} (D : Driver F) (lossy : Bytes → Text) where
  push-next :
      (row : D.Row) (index : ℕ) (names : List Text) (values : ColumnValues F)
      → Readable D row index
      → Known D row index names
      → data_type values ≡ data_type (new {F = F} names)
      → (after : ColumnValues F) × (push D lossy row index values ≡ ok after)
        × (data_type after ≡ data_type values)
        × (count after ≡ suc (count values))
  unfolding push new
  push-next row index names values (raw, p, d) known same = elim (Bool-cases raw.is_null) [
    | inl e ↦ (push_null values, rw (p, e) refl, null_type values, null_count values)
    | inr e ↦
        let (after, q, t, c) =
          push-Takes D lossy row index (to_ascii_lowercase raw.type_name) (d e) (lowered names)
            values (known raw p e) same in
        (after, rw (p, e) q, t, c)
  ]

  push_row-Fits :
      (row : D.Row) (index n : ℕ) (columns : List (ColumnValues F)) (types : List (List Text))
      → ((i : ℕ) → i < index + length types → Readable D row i)
      → Covered D row index types
      → Fits n columns types
      → (after : List (ColumnValues F)) × (push_row (sqlite_columns D lossy) row index columns
          ≡ ok after)
        × Fits (suc n) after types
  unfolding push_row
  push_row-Fits row index n [] [] h covered empty = ([], refl, empty)
  push_row-Fits row index n [] (names ∷ types) h covered fits = elim fits [ ]
  push_row-Fits row index n (values ∷ columns) [] h covered fits = elim fits [ ]
  push_row-Fits row index n (values ∷ columns) (names ∷ types) h covered (next t c fits) =
      let (pushed, p, t₁, c₁) =
        push-next row index names values (h index (omega arith)) covered.0 t in
      let (more, q, fits₁) =
        push_row-Fits row (suc index) n columns types (λ i l. h i (omega arith)) covered.1 fits in
      (pushed ∷ more, rw (p, q) refl, next (t₁ ∙ t) (c₁ ∙ ap suc c) fits₁)

  push_rows-Fits :
      (rows : List D.Row) (n : ℕ) (columns : List (ColumnValues F)) (types : List (List Text))
      → All (λ row. (i : ℕ) → i < length types → Readable D row i) rows
      → All (λ row. Covered D row 0 types) rows
      → Fits n columns types
      → (after : List (ColumnValues F)) × (push_rows (sqlite_columns D lossy) rows columns
          ≡ ok after)
        × Fits (n + length rows) after types
  unfolding push_rows
  push_rows-Fits [] n columns types h covered fits =
      let e : n + 0 ≡ n = omega arith in (columns, refl, rw e fits)
  push_rows-Fits (row ∷ rows) n columns types (h, hs) (c, cs) fits =
      let (pushed, p, fits₁) =
        push_row-Fits row 0 n columns types (λ i l. h i (omega arith)) c fits in
      let (after, q, fits₂) = push_rows-Fits rows (suc n) pushed types hs cs fits₁ in
      let e : n + suc (length rows) ≡ suc n + length rows = omega arith in
      (after, rw p q, rw e fits₂)

  -- If every value of the rows can be looked at and, where it is not null, has a type name that says one
  -- of SQLite's classes and is read as such, the chunk decodes: the type of each column is chosen so
  -- that it takes them all, and each gets one value for every row.
  pub decode_rows-counts :
      (metadata : List (Text × Text)) (rows : List D.Row)
      → All (λ row. (i : ℕ) → i < length metadata → Readable D row i) rows
      → (columns : List (ColumnValues F)) × (decode_rows (sqlite_columns D lossy) metadata rows
          ≡ ok columns)
        × (length columns ≡ length metadata)
        × All (λ values. count values ≡ length rows) columns
  unfolding decode_rows
  decode_rows-counts metadata rows h =
      let declared = map (λ (column : Text × Text). column.1 ∷ []) metadata in
      let l : length declared ≡ length metadata = length-map _ metadata in
      let h₁ = subst (λ n. All (λ row. (i : ℕ) → i < n → Readable D row i) rows) (sym l) h in
      let (types, adds, same, covered, kept) = add_rows-Added D rows declared h₁ in
      let h₂ = subst (λ n. All (λ row. (i : ℕ) → i < n → Readable D row i) rows) (sym same) h₁ in
      let (columns, p, fits) =
        push_rows-Fits rows 0 (map new types) types h₂ covered (new-Fits types) in
      let (l₁, counts) =
        Fits-counts (length rows) columns types
          (subst (λ n. Fits n columns types) (omega arith) fits) in
      (columns, rw adds p, l₁ ∙ (same ∙ l), counts)
