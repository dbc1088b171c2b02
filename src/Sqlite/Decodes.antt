-- ===== src/Sqlite/Decodes.antt =====
-- A column takes every value of the chunk that its type was chosen for.
use fsspec_db.Prelude.{
  ℕ, suc, ◌≡◌, refl, sym, ap, ◌∙◌, inl, inr, Bool, true, false, ◌||◌, some, List, [], ◌∷◌, ◌++◌,
  length, length-append, if◌then◌else◌, Bool-cases, arith,
}
use fsspec_db.Prelude.Text.{Text, text_eq, text_eq_iff, member}
use fsspec_db.Prelude.Int.{ℤ}
use fsspec_db.Error.{Result, ok, ◌>>=◌}
use fsspec_db.Stream.Codec.{Bytes}
use fsspec_db.Backend.Driver.{Floats, Driver, Reply, lift, done}
use fsspec_db.Fs.Options.{DataType}
use fsspec_db.Sqlite.Columns.{
  ColumnValues, bool, int64, float64, binary, utf8, is_text, is_blob, is_real, is_bool, is_int, any,
  new_lower, push_decoded, data_type, decode_sqlite_bool, decode_sqlite_i64, decode_sqlite_f64,
  decode_sqlite_utf8, decode_sqlite_binary,
}

-- how many values a column has
unfoldable pub count : {F : Floats} → ColumnValues F → ℕ
count (bool values) = length values
count (int64 values) = length values
count (float64 values) = length values
count (binary values) = length values
count (utf8 values) = length values

-- The result is a value.
abbrev pub Succeeds {ℓ} : {A : Type ℓ} → Result A → Type ℓ
Succeeds {A = A} m = (a : A) × (m ≡ ok a)

if_Succeeds :
    {A : Type 0} (b : Bool) {x y : Result A}
    → (b ≡ true → Succeeds x)
    → (b ≡ false → Succeeds y)
    → Succeeds (if b then x else y)
if_Succeeds true h k = h refl
if_Succeeds false h k = k refl

lift-Succeeds : {A : Type 0} {m : Reply A} → (value : A) × (m ≡ done value) → Succeeds (lift m)
lift-Succeeds (value, p) = (value, ap lift p)

map_Succeeds :
    {A B : Type 0} {m : Result A} (f : A → B) → Succeeds m → Succeeds (m >>= (λ a. ok (f a)))
map_Succeeds f (a, p) = (f a, ap (λ m. m >>= (λ a'. ok (f a'))) p)

pub length_snoc : {A : Type 0} (xs : List A) (x : A) → length (xs ++ x ∷ []) ≡ suc (length xs)
length_snoc xs x = let l = length-append xs (x ∷ []) in omega arith

any-false :
    (p : Text → Bool) (name : Text) (names : List Text)
    → any p names ≡ false
    → member name names ≡ true
    → p name ≡ false
unfolding member
any-false p name (n ∷ names) h k = elim (Bool-cases (text_eq name n)) [
  | inl e ↦ ap p ((text_eq_iff name n).0 e) ∙ ground arith
  | inr e ↦ any-false p name names (ground arith) (ground arith)
]
any-false p name [] h k = cc

-- the branches of `new_lower`
abbrev branch : (F : Floats) → Bool → Bool → Bool → Bool → Bool → ColumnValues F
branch F t b r l i =
    if t
    then utf8 []
    else if b
    then binary []
    else if r
    then float64 []
    else if l
    then bool []
    else if i
    then int64 []
    else utf8 []

branch_bool :
    (F : Floats) (t b r l i : Bool)
    → data_type (branch F t b r l i) ≡ DataType.boolean
    → (t ≡ false) × (b ≡ false) × (r ≡ false)
unfolding data_type
branch_bool F true b r l i h = cc
branch_bool F false true r l i h = cc
branch_bool F false false true l i h = cc
branch_bool F false false false l i h = (refl, refl, refl)

branch_int64 :
    (F : Floats) (t b r l i : Bool)
    → data_type (branch F t b r l i) ≡ DataType.int64
    → (t ≡ false) × (b ≡ false) × (r ≡ false)
unfolding data_type
branch_int64 F true b r l i h = cc
branch_int64 F false true r l i h = cc
branch_int64 F false false true l i h = cc
branch_int64 F false false false l i h = (refl, refl, refl)

branch_float64 :
    (F : Floats) (t b r l i : Bool)
    → data_type (branch F t b r l i) ≡ DataType.float64
    → (t ≡ false) × (b ≡ false)
unfolding data_type
branch_float64 F true b r l i h = cc
branch_float64 F false true r l i h = cc
branch_float64 F false false r l i h = (refl, refl)

module _ {F : Floats} (D : Driver F) where
  -- The name says one of SQLite's classes, and reading the value as what the name says succeeds.
  pub record Decodable (row : D.Row) (index : ℕ) (name : Text) : Type 0 where
    pub classified :
        (is_text name || is_blob name || is_real name || is_bool name || is_int name) ≡ true
    pub texts : is_text name ≡ true → (value : Text) × (D.text_at row index ≡ done value)
    pub blobs : is_blob name ≡ true → (value : Bytes) × (D.bytes_at row index ≡ done value)
    pub reals : is_real name ≡ true → (value : F.Float) × (D.float_at row index ≡ done value)
    pub bools : is_bool name ≡ true → (value : Bool) × (D.bool_at row index ≡ done value)
    pub ints : is_int name ≡ true → (value : ℤ) × (D.int_at row index ≡ done value)

  module _ (lossy : Bytes → Text) (row : D.Row) (index : ℕ) (name : Text)
      (d : Decodable row index name) where
    none_left :
        is_text name ≡ false
        → is_blob name ≡ false
        → is_real name ≡ false
        → is_bool name ≡ false
        → ¬ (is_int name ≡ false)
    none_left t b r e i = ground (arith, d.classified)

    bool-Succeeds :
        is_text name ≡ false
        → is_blob name ≡ false
        → is_real name ≡ false
        → Succeeds (decode_sqlite_bool D lossy row index name)
    unfolding decode_sqlite_bool
    bool-Succeeds t b r =
        if_Succeeds (is_bool name) (λ e. lift-Succeeds (d.bools e))
          (λ e.
            if_Succeeds (is_int name) (λ i. map_Succeeds _ (lift-Succeeds (d.ints i)))
              (λ i. absurd (none_left t b r e i)))

    i64-Succeeds :
        is_text name ≡ false
        → is_blob name ≡ false
        → is_real name ≡ false
        → Succeeds (decode_sqlite_i64 D lossy row index name)
    unfolding decode_sqlite_i64
    i64-Succeeds t b r =
        if_Succeeds (is_bool name) (λ e. map_Succeeds _ (lift-Succeeds (d.bools e)))
          (λ e.
            if_Succeeds (is_int name) (λ i. lift-Succeeds (d.ints i))
              (λ i. absurd (none_left t b r e i)))

    f64-Succeeds :
        is_text name ≡ false
        → is_blob name ≡ false
        → Succeeds (decode_sqlite_f64 D lossy row index name)
    unfolding decode_sqlite_f64
    f64-Succeeds t b =
        if_Succeeds (is_real name) (λ r. lift-Succeeds (d.reals r))
          (λ r.
            if_Succeeds (is_bool name) (λ e. map_Succeeds _ (lift-Succeeds (d.bools e)))
              (λ e.
                if_Succeeds (is_int name) (λ i. map_Succeeds _ (lift-Succeeds (d.ints i)))
                  (λ i. absurd (none_left t b r e i))))

    utf8-Succeeds : Succeeds (decode_sqlite_utf8 D lossy row index name)
    unfolding decode_sqlite_utf8
    utf8-Succeeds =
        if_Succeeds (is_text name) (λ t. lift-Succeeds (d.texts t))
          (λ t.
            if_Succeeds (is_blob name) (λ b. map_Succeeds _ (lift-Succeeds (d.blobs b)))
              (λ b.
                if_Succeeds (is_real name) (λ r. map_Succeeds _ (lift-Succeeds (d.reals r)))
                  (λ r.
                    if_Succeeds (is_bool name) (λ e. map_Succeeds _ (lift-Succeeds (d.bools e)))
                      (λ e.
                        if_Succeeds (is_int name) (λ i. map_Succeeds _ (lift-Succeeds (d.ints i)))
                          (λ i. absurd (none_left t b r e i))))))

    binary-Succeeds : Succeeds (decode_sqlite_binary D lossy row index name)
    unfolding decode_sqlite_binary
    binary-Succeeds =
        if_Succeeds (is_blob name) (λ b. lift-Succeeds (d.blobs b))
          (λ b. map_Succeeds _ utf8-Succeeds)

    -- A column of the type takes the value.
    abbrev pub Takes : ColumnValues F → Type 0
    Takes values =
        (next : ColumnValues F) × (push_decoded D lossy row index name values ≡ ok next)
        × (data_type next ≡ data_type values)
        × (count next ≡ suc (count values))

    -- The type that is chosen for some names takes a value that has one of them.
    pub push-Takes :
        (names : List Text) (values : ColumnValues F)
        → member name names ≡ true
        → data_type values ≡ data_type (new_lower {F = F} names)
        → Takes values
    unfolding push_decoded data_type count new_lower
    push-Takes names (bool values) h same =
        let (t, b, r) =
          branch_bool F (any is_text names) (any is_blob names) (any is_real names)
            (any is_bool names) (any is_int names) (sym same) in
        let (v, p) =
          bool-Succeeds (any-false is_text name names t h) (any-false is_blob name names b h)
            (any-false is_real name names r h) in
        (
          _,
          ap (λ m. m >>= (λ v'. ok (bool (values ++ some v' ∷ [])))) p,
          refl,
          length_snoc values (some v),
        )
    push-Takes names (int64 values) h same =
        let (t, b, r) =
          branch_int64 F (any is_text names) (any is_blob names) (any is_real names)
            (any is_bool names) (any is_int names) (sym same) in
        let (v, p) =
          i64-Succeeds (any-false is_text name names t h) (any-false is_blob name names b h)
            (any-false is_real name names r h) in
        (
          _,
          ap (λ m. m >>= (λ v'. ok (int64 (values ++ some v' ∷ [])))) p,
          refl,
          length_snoc values (some v),
        )
    push-Takes names (float64 values) h same =
        let (t, b) =
          branch_float64 F (any is_text names) (any is_blob names) (any is_real names)
            (any is_bool names) (any is_int names) (sym same) in
        let (v, p) =
          f64-Succeeds (any-false is_text name names t h) (any-false is_blob name names b h) in
        (
          _,
          ap (λ m. m >>= (λ v'. ok (float64 (values ++ some v' ∷ [])))) p,
          refl,
          length_snoc values (some v),
        )
    push-Takes names (binary values) h same =
        let (v, p) = binary-Succeeds in
        (
          _,
          ap (λ m. m >>= (λ v'. ok (binary (values ++ some v' ∷ [])))) p,
          refl,
          length_snoc values (some v),
        )
    push-Takes names (utf8 values) h same =
        let (v, p) = utf8-Succeeds in
        (
          _,
          ap (λ m. m >>= (λ v'. ok (utf8 (values ++ some v' ∷ [])))) p,
          refl,
          length_snoc values (some v),
        )
