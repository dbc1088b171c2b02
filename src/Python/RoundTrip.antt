-- ===== src/Python/RoundTrip.antt =====
-- What the bindings write into a dictionary they read back.
use fsspec_db.Prelude.{ℕ, ◌<◌, ◌^◌, ◌≡◌, refl, Bool, true, false, Option, none, some, List}
use fsspec_db.Prelude.Text.{Text, codes}
use fsspec_db.Types.{
  SchemaInfo, RelationInfo, ColumnInfo, IndexInfo, ConstraintInfo, RelationKind, ConstraintKind,
  kind_str, constraint_str,
}
use fsspec_db.Python.Errors.{PyResult, returned, relation_kind_from_str, constraint_kind_from_str}
use fsspec_db.Python.Objects.{
  PyValues, PyDict, dict, get_item, of_optional, optional_field, required_field, required, optional,
  schema_to_dict, relation_to_dict, column_to_dict, index_to_dict, constraint_to_dict,
  schema_from_py, relation_from_py, column_from_py, index_from_py, constraint_from_py,
}

-- What PyO3 documents of its conversions: a value that is made is no `None`, and is read back, a number
-- where it fits.
pub record IsFaithful (V : PyValues) : Type 0 where
  pub nothing_none : V.is_none V.nothing ≡ true
  pub text_some : (t : Text) → V.is_none (V.of_text t) ≡ false
  pub bool_some : (b : Bool) → V.is_none (V.of_bool b) ≡ false
  pub number_some : (n : ℕ) → V.is_none (V.of_number n) ≡ false
  pub text : (t : Text) → V.as_text (V.of_text t) ≡ returned t
  pub bool : (b : Bool) → V.as_bool (V.of_bool b) ≡ returned b
  pub texts : (ts : List Text) → V.as_texts (V.of_texts ts) ≡ returned ts
  pub u32 : (n : ℕ) → n < 2 ^ 32 → V.as_u32 (V.of_number n) ≡ returned n
  pub u64 : (n : ℕ) → n < 2 ^ 64 → V.as_u64 (V.of_number n) ≡ returned n

-- an optional number that fits 64 bits
abbrev pub Fits : Option ℕ → Type 0
Fits none = Unit
Fits (some n) = n < 2 ^ 64

relation_word : (kind : RelationKind) → relation_kind_from_str (kind_str kind) ≡ returned kind
unfolding relation_kind_from_str kind_str
relation_word RelationKind.table = refl
relation_word RelationKind.view = refl

constraint_word :
    (kind : ConstraintKind) → constraint_kind_from_str (constraint_str kind) ≡ returned kind
unfolding constraint_kind_from_str constraint_str
constraint_word ConstraintKind.primary_key = refl
constraint_word ConstraintKind.foreign_key = refl
constraint_word ConstraintKind.unique = refl
constraint_word ConstraintKind.check = refl

module _ (V : PyValues) (h : IsFaithful V) where
  required_at :
      {A : Type 0} (extract : V.Value → PyResult A) (items : PyDict V) (name : Text) (v : V.Value)
      (a : A)
      → get_item V items name ≡ some v
      → extract v ≡ returned a
      → required V extract (dict items) name ≡ returned a
  unfolding required required_field optional_field
  required_at extract items name v a p q = rw (p, q) refl

  optional-some :
      {A : Type 0} (extract : V.Value → PyResult A) (items : PyDict V) (name : Text) (v : V.Value)
      (a : A)
      → get_item V items name ≡ some v
      → V.is_none v ≡ false
      → extract v ≡ returned a
      → optional V extract (dict items) name ≡ returned (some a)
  unfolding optional optional_field
  optional-some extract items name v a p n q = rw (p, n, q) refl

  optional-none :
      {A : Type 0} (extract : V.Value → PyResult A) (items : PyDict V) (name : Text)
      → get_item V items name ≡ some V.nothing
      → optional V extract (dict items) name ≡ returned none
  unfolding optional optional_field
  optional-none extract items name p = rw (p, h.nothing_none) refl

  optional_text :
      (items : PyDict V) (name : Text) (o : Option Text)
      → get_item V items name ≡ some (of_optional V V.of_text o)
      → optional V V.as_text (dict items) name ≡ returned o
  optional_text items name none p = optional-none V.as_text items name p
  optional_text items name (some t) p =
      optional-some V.as_text items name (V.of_text t) t p (h.text_some t) (h.text t)

  optional_number :
      (items : PyDict V) (name : Text) (o : Option ℕ)
      → Fits o
      → get_item V items name ≡ some (of_optional V V.of_number o)
      → optional V V.as_u64 (dict items) name ≡ returned o
  optional_number items name none f p = optional-none V.as_u64 items name p
  optional_number items name (some n) f p =
      optional-some V.as_u64 items name (V.of_number n) n p (h.number_some n) (h.u64 n f)

  schema_lem : (s : SchemaInfo) → schema_from_py V (dict (schema_to_dict V s)) ≡ returned s
  unfolding schema_from_py schema_to_dict get_item
  schema_lem s =
      let items = schema_to_dict V s in
      rw
        (
          required_at V.as_text items (codes "name") _ s.name refl (h.text s.name),
          optional_text items (codes "catalog") s.catalog refl,
          optional_text items (codes "comment") s.comment refl,
        )
        refl

  relation_lem :
      (r : RelationInfo)
      → Fits r.row_count
      → Fits r.size_bytes
      → relation_from_py V (dict (relation_to_dict V r)) ≡ returned r
  unfolding relation_from_py relation_to_dict get_item
  relation_lem r f g =
      let items = relation_to_dict V r in
      rw
        (
          required_at V.as_text items (codes "name") _ r.name refl (h.text r.name),
          required_at V.as_text items (codes "kind") _ (kind_str r.kind) refl
              (h.text (kind_str r.kind)),
          relation_word r.kind,
          optional_number items (codes "row_count") r.row_count f refl,
          optional_number items (codes "size_bytes") r.size_bytes g refl,
          optional_text items (codes "comment") r.comment refl,
        )
        refl

  column_lem :
      (c : ColumnInfo)
      → c.ordinal < 2 ^ 32
      → column_from_py V (dict (column_to_dict V c)) ≡ returned c
  unfolding column_from_py column_to_dict get_item
  column_lem c f =
      let items = column_to_dict V c in
      rw
        (
          required_at V.as_text items (codes "name") _ c.name refl (h.text c.name),
          required_at V.as_text items (codes "data_type") _ c.data_type refl (h.text c.data_type),
          required_at V.as_bool items (codes "nullable") _ c.nullable refl (h.bool c.nullable),
          optional_text items (codes "default") c.default refl,
          required_at V.as_u32 items (codes "ordinal") _ c.ordinal refl (h.u32 c.ordinal f),
          optional-some V.as_bool items (codes "primary_key") _ c.primary_key refl
              (h.bool_some c.primary_key) (h.bool c.primary_key),
          optional_text items (codes "comment") c.comment refl,
        )
        refl

  index_lem : (i : IndexInfo) → index_from_py V (dict (index_to_dict V i)) ≡ returned i
  unfolding index_from_py index_to_dict get_item
  index_lem i =
      let items = index_to_dict V i in
      rw
        (
          required_at V.as_text items (codes "name") _ i.name refl (h.text i.name),
          required_at V.as_texts items (codes "columns") _ i.columns refl (h.texts i.columns),
          required_at V.as_bool items (codes "unique") _ i.unique refl (h.bool i.unique),
          optional_text items (codes "method") i.method refl,
        )
        refl

  constraint_lem :
      (c : ConstraintInfo) → constraint_from_py V (dict (constraint_to_dict V c)) ≡ returned c
  unfolding constraint_from_py constraint_to_dict get_item
  constraint_lem c =
      let items = constraint_to_dict V c in
      rw
        (
          required_at V.as_text items (codes "name") _ c.name refl (h.text c.name),
          required_at V.as_text items (codes "kind") _ (constraint_str c.kind) refl
              (h.text (constraint_str c.kind)),
          constraint_word c.kind,
          required_at V.as_texts items (codes "columns") _ c.columns refl (h.texts c.columns),
          optional_text items (codes "references") c.references refl,
          optional_text items (codes "expr") c.expr refl,
        )
        refl

  -- Where the conversions of PyO3 are faithful, the dictionary that is made of a schema, an index or a
  -- constraint is read back as it was, and so is that of a relation whose counts fit 64 bits and that of a
  -- column whose ordinal fits 32.
  pub from_py-to_dict :
      ((s : SchemaInfo) → schema_from_py V (dict (schema_to_dict V s)) ≡ returned s)
      × ((i : IndexInfo) → index_from_py V (dict (index_to_dict V i)) ≡ returned i)
      × ((c : ConstraintInfo) → constraint_from_py V (dict (constraint_to_dict V c)) ≡ returned c)
      × ((r : RelationInfo)
          → Fits r.row_count
          → Fits r.size_bytes
          → relation_from_py V (dict (relation_to_dict V r)) ≡ returned r)
      × ((c : ColumnInfo)
          → c.ordinal < 2 ^ 32
          → column_from_py V (dict (column_to_dict V c)) ≡ returned c)
  from_py-to_dict = (schema_lem, index_lem, constraint_lem, relation_lem, column_lem)
