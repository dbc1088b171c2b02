-- ===== src/Sqlite/Covers.antt =====
-- The types of a chunk's rows: each value's type is among the names of its column.
use fsspec_db.Prelude.{
  ℕ, suc, ◌+◌, ◌<◌, ◌≡◌, refl, sym, ap, subst, ◌∙◌, inl, inr, true, false, List, [], ◌∷◌, ◌++◌,
  length, map, All, if◌then◌else◌, Bool-cases, arith,
}
use fsspec_db.Prelude.Text.{Text, text_eq, member, to_ascii_lowercase}
use fsspec_db.Prelude.Text.Laws.{text_eq_refl}
use fsspec_db.Error.{Result, ok}
use fsspec_db.Backend.Driver.{Floats, Driver, Raw, Reply, done}
use fsspec_db.Backend.Rows.{add_row, add_rows}
use fsspec_db.Sqlite.Decodes.{Decodable}

done_injective : {A : Type 0} {a b : A} → ◌≡◌ {A = Reply A} (done a) (done b) → a ≡ b
done_injective h = cc

abbrev pub lowered : List Text → List Text
lowered = map to_ascii_lowercase

member_snoc :
    (name : Text) (names : List Text) (more : Text)
    → member name (lowered names) ≡ true
    → member name (lowered (names ++ more ∷ [])) ≡ true
unfolding member
member_snoc name [] more h = cc
member_snoc name (n ∷ names) more h = elim (Bool-cases (text_eq name (to_ascii_lowercase n))) [
  | inl e ↦ rw e refl
  | inr e ↦ let i = member_snoc name names more in ground (arith, i)
]

member_last :
    (names : List Text) (name : Text)
    → member (to_ascii_lowercase name) (lowered (names ++ name ∷ [])) ≡ true
unfolding member
member_last [] name = rw (text_eq_refl (to_ascii_lowercase name)) refl
member_last (n ∷ names) name = let i = member_last names name in ground (arith, i)

module _ {F : Floats} (D : Driver F) where
  -- The value can be looked at, and read if it is not null.
  abbrev pub Readable : D.Row → ℕ → Type 0
  Readable row index =
      (raw : Raw) × (D.raw row index ≡ done raw)
      × (raw.is_null ≡ false → Decodable D row index (to_ascii_lowercase raw.type_name))

  -- The names have the type of the row's value.
  abbrev pub Known : D.Row → ℕ → List Text → Type 0
  Known row index names =
      (raw : Raw)
      → D.raw row index ≡ done raw
      → raw.is_null ≡ false
      → member (to_ascii_lowercase raw.type_name) (lowered names) ≡ true

  abbrev pub Covered : D.Row → ℕ → List (List Text) → Type 0
  Covered row index [] = Unit
  Covered row index (names ∷ rest) = Known row index names × Covered row (suc index) rest

  -- A row's types are added.
  record Added (row : D.Row) (index : ℕ) (types : List (List Text)) (m : Result (List (List Text)))
      : Type 0 where
    after : List (List Text)
    adds : m ≡ ok after
    same : length after ≡ length types
    covered : Covered row index after
    kept : (other : D.Row) → Covered other index types → Covered other index after

  abbrev with_type : Raw → List Text → List Text
  with_type raw names = if raw.is_null then names else names ++ raw.type_name ∷ []

  with_type-Known :
      (row : D.Row) (index : ℕ) (raw : Raw) (names : List Text)
      → D.raw row index ≡ done raw
      → Known row index (with_type raw names)
  with_type-Known row index raw names p raw' q live =
      let same = done_injective (sym p ∙ q) in
      let live₁ : raw.is_null ≡ false = ap (λ (r : Raw). r.is_null) same ∙ live in
      subst
        (λ (r : Raw).
          member (to_ascii_lowercase r.type_name) (lowered (with_type raw names)) ≡ true)
        same (rw live₁ (member_last names raw.type_name))

  with_type-keeps :
      (row : D.Row) (index : ℕ) (raw : Raw) (names : List Text)
      → Known row index names
      → Known row index (with_type raw names)
  with_type-keeps row index raw names known raw' q live = elim (Bool-cases raw.is_null) [
    | inl e ↦ rw e (known raw' q live)
    | inr e ↦
        rw e
          (member_snoc (to_ascii_lowercase raw'.type_name) names raw.type_name (known raw' q live))
  ]

  add_row-Added :
      (row : D.Row) (index : ℕ) (types : List (List Text))
      → ((i : ℕ) → i < index + length types → Readable row i)
      → Added row index types (add_row D row index types)
  unfolding add_row
  add_row-Added row index [] h = record {
    after = [];
    adds = refl;
    same = refl;
    covered = tt;
    kept = λ other c. c;
  }
  add_row-Added row index (names ∷ rest) h =
      let (raw, p, d) = h index (omega arith) in
      let more = add_row-Added row (suc index) rest (λ i l. h i (omega arith)) in
      record {
        after = with_type raw names ∷ more.after;
        adds = rw (p, more.adds) refl;
        same = ap suc more.same;
        covered = (with_type-Known row index raw names p, more.covered);
        kept = λ other c. (with_type-keeps other index raw names c.0, more.kept other c.1);
      }

  pub add_rows-Added :
      (rows : List D.Row) (types : List (List Text))
      → All (λ row. (i : ℕ) → i < length types → Readable row i) rows
      → (after : List (List Text)) × (add_rows D rows types ≡ ok after)
        × (length after ≡ length types)
        × All (λ row. Covered row 0 after) rows
        × ((other : D.Row) → Covered other 0 types → Covered other 0 after)
  unfolding add_rows
  add_rows-Added [] types h = (types, refl, refl, tt, λ other c. c)
  add_rows-Added (row ∷ rows) types (h, hs) =
      let first = add_row-Added row 0 types (λ i l. h i (omega arith)) in
      let (after, adds, same, covered, kept) =
        add_rows-Added rows first.after
          (subst (λ n. All (λ row'. (i : ℕ) → i < n → Readable row' i) rows) (sym first.same) hs) in
      (
        after,
        rw first.adds adds,
        same ∙ first.same,
        (kept row first.covered, covered),
        λ other c. kept other (first.kept other c),
      )
