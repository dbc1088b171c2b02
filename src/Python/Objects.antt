-- ===== src/Python/Objects.antt =====
-- rust/python/types.rs and rust/python/database.rs: schemas, relations, columns, indexes and constraints
-- as dictionaries, and read from the objects of a database written in Python.
use fsspec_db.Prelude.{ℕ, Bool, false, Option, none, some, List, [], ◌∷◌, ◌++◌, if◌then◌else◌}
use fsspec_db.Prelude.Text.{Text, codes, text_eq}
use fsspec_db.Types.{
  SchemaInfo, RelationInfo, ColumnInfo, IndexInfo, ConstraintInfo, kind_str, constraint_str,
}
use fsspec_db.Python.Errors.{
  PyResult, raised, returned, value_error, ◌>>=◌, relation_kind_from_str, constraint_kind_from_str,
}

-- The values of Python, as PyO3 makes and reads them.
pub record PyValues : Type 1 where
  pub Value : Type 0
  pub nothing : Value
  pub of_text : Text → Value
  pub of_bool : Bool → Value
  pub of_number : ℕ → Value
  pub of_texts : List Text → Value
  pub is_none : Value → Bool
  pub as_text : Value → PyResult Text
  pub as_bool : Value → PyResult Bool
  pub as_u32 : Value → PyResult ℕ
  pub as_u64 : Value → PyResult ℕ
  pub as_texts : Value → PyResult (List Text)

module _ (V : PyValues) where
  -- `PyDict` with the items in the order in which they are set
  abbrev pub PyDict : Type 0
  PyDict = List (Text × V.Value)

  -- `obj`: a dictionary, or an object with attributes and perhaps a method `to_dict`, whose call may give
  -- something that is no dictionary
  pub data PyObject : Type 0 where
    dict : PyDict → PyObject
    instance_of :
        (Text → PyResult (Option V.Value)) → PyResult (Option (PyResult (Option PyDict))) → PyObject

  -- `dict.get_item(name)`
  unfoldable pub get_item : PyDict → Text → Option V.Value
  get_item [] name = none
  get_item ((key, value) ∷ items) name =
      if text_eq key name then some value else get_item items name

  -- an optional field as Python has it
  abbrev pub of_optional : {A : Type 0} → (A → V.Value) → Option A → V.Value
  of_optional f none = V.nothing
  of_optional f (some a) = f a

  abbrev get_from : Option PyDict → Text → Option V.Value
  get_from none name = none
  get_from (some items) name = get_item items name

  abbrev from_to_dict : Option (PyResult (Option PyDict)) → Text → PyResult (Option V.Value)
  from_to_dict none name = returned none
  from_to_dict (some call) name = do items ← call; returned (get_from items name)

  unfoldable pub optional_field : PyObject → Text → PyResult (Option V.Value)
  optional_field (dict items) name = returned (get_item items name)
  optional_field (instance_of attribute to_dict) name = do
    found ← attribute name
    elim found [
      | some value ↦ returned (some value)
      | none ↦ to_dict >>= λ method. from_to_dict method name
    ]

  abbrev or_missing : Text → Option V.Value → PyResult V.Value
  or_missing name none = raised (value_error (codes "missing field: " ++ name))
  or_missing name (some value) = returned value

  unfoldable pub required_field : PyObject → Text → PyResult V.Value
  required_field obj name = do found ← optional_field obj name; or_missing name found

  -- `required_string`, `required_bool`, `required_u32`, `required_string_list`
  unfoldable pub required : {A : Type 0} → (V.Value → PyResult A) → PyObject → Text → PyResult A
  required extract obj name = do value ← required_field obj name; extract value

  abbrev extract_some : {A : Type 0} → (V.Value → PyResult A) → Option V.Value → PyResult (Option A)
  extract_some extract none = returned none
  extract_some extract (some value) =
      if V.is_none value then returned none else (do a ← extract value; returned (some a))

  -- `optional_string`, `optional_bool`, `optional_u64`
  unfoldable pub optional :
      {A : Type 0} → (V.Value → PyResult A) → PyObject → Text → PyResult (Option A)
  optional extract obj name = do found ← optional_field obj name; extract_some extract found

  unfoldable pub schema_to_dict : SchemaInfo → PyDict
  schema_to_dict schema =
      (codes "name", V.of_text schema.name)
      ∷ (codes "catalog", of_optional V.of_text schema.catalog)
      ∷ (codes "comment", of_optional V.of_text schema.comment)
      ∷ []

  unfoldable pub relation_to_dict : RelationInfo → PyDict
  relation_to_dict relation =
      (codes "name", V.of_text relation.name)
      ∷ (codes "kind", V.of_text (kind_str relation.kind))
      ∷ (codes "row_count", of_optional V.of_number relation.row_count)
      ∷ (codes "size_bytes", of_optional V.of_number relation.size_bytes)
      ∷ (codes "comment", of_optional V.of_text relation.comment)
      ∷ []

  unfoldable pub column_to_dict : ColumnInfo → PyDict
  column_to_dict column =
      (codes "name", V.of_text column.name)
      ∷ (codes "data_type", V.of_text column.data_type)
      ∷ (codes "nullable", V.of_bool column.nullable)
      ∷ (codes "default", of_optional V.of_text column.default)
      ∷ (codes "ordinal", V.of_number column.ordinal)
      ∷ (codes "primary_key", V.of_bool column.primary_key)
      ∷ (codes "comment", of_optional V.of_text column.comment)
      ∷ []

  unfoldable pub index_to_dict : IndexInfo → PyDict
  index_to_dict index =
      (codes "name", V.of_text index.name)
      ∷ (codes "columns", V.of_texts index.columns)
      ∷ (codes "unique", V.of_bool index.unique)
      ∷ (codes "method", of_optional V.of_text index.method)
      ∷ []

  unfoldable pub constraint_to_dict : ConstraintInfo → PyDict
  constraint_to_dict constraint =
      (codes "name", V.of_text constraint.name)
      ∷ (codes "kind", V.of_text (constraint_str constraint.kind))
      ∷ (codes "columns", V.of_texts constraint.columns)
      ∷ (codes "references", of_optional V.of_text constraint.references)
      ∷ (codes "expr", of_optional V.of_text constraint.expr)
      ∷ []

  unfoldable pub schema_from_py : PyObject → PyResult SchemaInfo
  schema_from_py obj = do
    name ← required V.as_text obj (codes "name")
    catalog ← optional V.as_text obj (codes "catalog")
    comment ← optional V.as_text obj (codes "comment")
    returned (record { name = name; catalog = catalog; comment = comment })

  unfoldable pub relation_from_py : PyObject → PyResult RelationInfo
  relation_from_py obj = do
    name ← required V.as_text obj (codes "name")
    word ← required V.as_text obj (codes "kind")
    kind ← relation_kind_from_str word
    row_count ← optional V.as_u64 obj (codes "row_count")
    size_bytes ← optional V.as_u64 obj (codes "size_bytes")
    comment ← optional V.as_text obj (codes "comment")
    returned (record {
      name = name;
      kind = kind;
      row_count = row_count;
      size_bytes = size_bytes;
      comment = comment;
    })

  -- `unwrap_or(false)`
  abbrev or_false : Option Bool → Bool
  or_false none = false
  or_false (some b) = b

  unfoldable pub column_from_py : PyObject → PyResult ColumnInfo
  column_from_py obj = do
    name ← required V.as_text obj (codes "name")
    data_type ← required V.as_text obj (codes "data_type")
    nullable ← required V.as_bool obj (codes "nullable")
    default ← optional V.as_text obj (codes "default")
    ordinal ← required V.as_u32 obj (codes "ordinal")
    primary_key ← optional V.as_bool obj (codes "primary_key")
    comment ← optional V.as_text obj (codes "comment")
    returned (record {
      name = name;
      data_type = data_type;
      nullable = nullable;
      default = default;
      ordinal = ordinal;
      primary_key = or_false primary_key;
      comment = comment;
    })

  unfoldable pub index_from_py : PyObject → PyResult IndexInfo
  index_from_py obj = do
    name ← required V.as_text obj (codes "name")
    columns ← required V.as_texts obj (codes "columns")
    unique ← required V.as_bool obj (codes "unique")
    method ← optional V.as_text obj (codes "method")
    returned (record { name = name; columns = columns; unique = unique; method = method })

  unfoldable pub constraint_from_py : PyObject → PyResult ConstraintInfo
  constraint_from_py obj = do
    name ← required V.as_text obj (codes "name")
    word ← required V.as_text obj (codes "kind")
    kind ← constraint_kind_from_str word
    columns ← required V.as_texts obj (codes "columns")
    references ← optional V.as_text obj (codes "references")
    expr ← optional V.as_text obj (codes "expr")
    returned (record {
      name = name;
      kind = kind;
      columns = columns;
      references = references;
      expr = expr;
    })
