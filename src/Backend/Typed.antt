-- ===== src/Backend/Typed.antt =====
-- The batches of a query have the schema that the statement declares, where the type of a column is
-- chosen by its declared type.
use fsspec_db.Prelude.{
  ℕ, suc, ◌≡◌, refl, sym, ap, ap₂, subst, ◌∙◌, inl, inr, Bool-cases, if◌then◌else◌, List, [], ◌∷◌,
  ◌++◌, map,
}
use fsspec_db.Prelude.Text.{Text}
use fsspec_db.Error.{ok, >>=-eq-ok, ok_injective}
use fsspec_db.Backend.Driver.{Floats, Driver, Raw, lift}
use fsspec_db.Fs.Options.{DataType}
use fsspec_db.Fs.Write.{Field}
use fsspec_db.Backend.Rows.{
  ColumnOps, nullable_field, zip_fields, schema_fields, add_row, add_rows, push_row, push_rows,
  decode_rows,
}

-- A value keeps the type of its column, and the types that are found behind a column's declared type do
-- not change it.
pub record IsDeclared {F : Floats} {D : Driver F} (C : ColumnOps D) : Type 0 where
  pub keeps :
      (row : D.Row) (index : ℕ) (values after : C.Values)
      → C.push row index values ≡ ok after
      → C.data_type after ≡ C.data_type values
  pub first :
      (name : Text) (names : List Text)
      → C.data_type (C.new (name ∷ names)) ≡ C.data_type (C.new (name ∷ []))

-- Each list of types begins with the declared type.
data Begins : List (Text × Text) → List (List Text) → Type 0 where
  empty : Begins [] []
  next :
      {column : Text × Text} {metadata : List (Text × Text)} {names : List Text}
      {types : List (List Text)}
      → Begins metadata types
      → Begins (column ∷ metadata) ((column.1 ∷ names) ∷ types)

declared-Begins :
    (metadata : List (Text × Text))
    → Begins metadata (map (λ (column : Text × Text). column.1 ∷ []) metadata)
declared-Begins [] = empty
declared-Begins (column ∷ metadata) = next (declared-Begins metadata)

with_type :
    (column : Text × Text) (metadata : List (Text × Text)) (names : List Text)
    (more : List (List Text)) (raw : Raw)
    → Begins metadata more
    → Begins (column ∷ metadata) (
        (if raw.is_null then column.1 ∷ names else (column.1 ∷ names) ++ raw.type_name ∷ []) ∷ more)
with_type column metadata names more raw b = elim (Bool-cases raw.is_null) [
  | inl e ↦ rw e (next b)
  | inr e ↦ rw e (next b)
]

nil-cons : {A : Type 0} {x : A} {xs : List A} → ¬ (◌≡◌ {A = List A} [] (x ∷ xs))
nil-cons h = cc

head_injective :
    {A : Type 0} {x y : A} {xs ys : List A} → ◌≡◌ {A = List A} (x ∷ xs) (y ∷ ys) → x ≡ y
head_injective h = cc

tail_injective :
    {A : Type 0} {x y : A} {xs ys : List A} → ◌≡◌ {A = List A} (x ∷ xs) (y ∷ ys) → xs ≡ ys
tail_injective h = cc

module _ {F : Floats} (D : Driver F) where
  add_row-Begins :
      (row : D.Row) (index : ℕ) (metadata : List (Text × Text)) (types after : List (List Text))
      → Begins metadata types
      → add_row D row index types ≡ ok after
      → Begins metadata after
  unfolding add_row
  add_row-Begins row index [] [] after empty h = subst (Begins []) (ok_injective h) empty
  add_row-Begins row index [] (t ∷ types) after b h = elim b [ ]
  add_row-Begins row index (c ∷ metadata) [] after b h = elim b [ ]
  add_row-Begins row index (c ∷ metadata) _ after (next {names = names} {types = types} b) h =
      let (raw, p, h₁) = >>=-eq-ok (lift (D.raw row index)) _ h in
      let (more, q, h₂) = >>=-eq-ok (add_row D row (suc index) types) _ h₁ in
      subst (Begins (c ∷ metadata)) (ok_injective h₂) (
        with_type c metadata names more raw
          (add_row-Begins row (suc index) metadata types more b q))

  add_rows-Begins :
      (rows : List D.Row) (metadata : List (Text × Text)) (types after : List (List Text))
      → Begins metadata types
      → add_rows D rows types ≡ ok after
      → Begins metadata after
  unfolding add_rows
  add_rows-Begins [] metadata types after b h = subst (Begins metadata) (ok_injective h) b
  add_rows-Begins (row ∷ rows) metadata types after b h =
      let (added, p, h₁) = >>=-eq-ok (add_row D row 0 types) _ h in
      add_rows-Begins rows metadata added after (add_row-Begins row 0 metadata types added b p) h₁

module _ {F : Floats} {D : Driver F} (C : ColumnOps D) where
  abbrev types_of : List C.Values → List DataType
  types_of = map C.data_type

  module _ (declared : IsDeclared C) where
    push_row-types :
        (row : D.Row) (index : ℕ) (columns after : List C.Values)
        → push_row C row index columns ≡ ok after
        → types_of after ≡ types_of columns
    unfolding push_row
    push_row-types row index [] after h = ap types_of (ok_injective (sym h))
    push_row-types row index (values ∷ columns) after h =
        let (pushed, p, h₁) = >>=-eq-ok (C.push row index values) _ h in
        let (more, q, h₂) = >>=-eq-ok (push_row C row (suc index) columns) _ h₁ in
        ap types_of (ok_injective (sym h₂))
        ∙ ap₂ (λ t (ts : List DataType). t ∷ ts) (declared.keeps row index values pushed p)
            (push_row-types row (suc index) columns more q)

    push_rows-types :
        (rows : List D.Row) (columns after : List C.Values)
        → push_rows C rows columns ≡ ok after
        → types_of after ≡ types_of columns
    unfolding push_rows
    push_rows-types [] columns after h = ap types_of (ok_injective (sym h))
    push_rows-types (row ∷ rows) columns after h =
        let (pushed, p, h₁) = >>=-eq-ok (push_row C row 0 columns) _ h in
        push_rows-types rows pushed after h₁ ∙ push_row-types row 0 columns pushed p

    fields-zip :
        (metadata : List (Text × Text)) (types : List (List Text)) (columns : List C.Values)
        → Begins metadata types
        → types_of columns ≡ types_of (map C.new types)
        → zip_fields C (map (λ (column : Text × Text). column.0) metadata) columns
          ≡ schema_fields C metadata
    unfolding zip_fields schema_fields
    fields-zip [] types columns b h = refl
    fields-zip (c ∷ metadata) [] columns b h = elim b [ ]
    fields-zip (c ∷ metadata) _ [] (next b) h = absurd (nil-cons h)
    fields-zip (c ∷ metadata) _ (values ∷ columns) (next {names = names} {types = types} b) h =
        ap₂ (λ t (fields : List Field). nullable_field c.0 t ∷ fields)
          (head_injective h ∙ declared.first c.1 names)
          (fields-zip metadata types columns b (tail_injective h))

    -- Whatever rows a chunk has, its batch has the schema that is made of the declared types alone.
    pub decode_rows-fields :
        (metadata : List (Text × Text)) (rows : List D.Row) (columns : List C.Values)
        → decode_rows C metadata rows ≡ ok columns
        → zip_fields C (map (λ (column : Text × Text). column.0) metadata) columns
          ≡ schema_fields C metadata
    unfolding decode_rows
    decode_rows-fields metadata rows columns h =
        let declared_types = map (λ (column : Text × Text). column.1 ∷ []) metadata in
        let (types, p, h₁) = >>=-eq-ok (add_rows D rows declared_types) _ h in
        let b = add_rows-Begins D rows metadata declared_types types (declared-Begins metadata) p in
        fields-zip metadata types columns b (push_rows-types rows (map C.new types) columns h₁)
