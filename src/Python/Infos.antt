-- ===== src/Python/Infos.antt =====
-- rust/python/types.rs: the information of a file as a dictionary, in which the texts of the extra
-- entries become truth values, numbers and lists.
use fsspec_db.Prelude.{
  ℕ, Option, none, some, List, [], ◌∷◌, if◌then◌else◌, ltb, keep, not, true, false,
}
use fsspec_db.Prelude.Text.{Text, codes, text_eq, member, split}
use fsspec_db.Prelude.Decimal.{parse_u64}
use fsspec_db.Python.Objects.{PyValues, PyDict}

-- `FileType`
pub data FileType : Type 0 where
  file directory other : FileType

-- What is read of the file information of fsspec_rs; the extra entries come in the order of its map,
-- with different keys.
pub record InfoFields : Type 1 where
  pub FileInfo : Type 0
  pub name : FileInfo → Text
  pub size : FileInfo → ℕ
  pub file_type : FileInfo → FileType
  pub extra : FileInfo → List (Text × Text)

abbrev pub type_str : FileType → Text
type_str FileType.file = codes "file"
type_str FileType.directory = codes "directory"
type_str FileType.other = codes "other"

-- `value.parse::<u32>()`
unfoldable pub parse_u32 : Text → Option ℕ
parse_u32 text = elim (parse_u64 text) [
  | none ↦ none
  | some n ↦ if ltb n 4294967296 then some n else none
]

module _ (V : PyValues) where
  -- `Ok(parsed)` as a number, the text as it is otherwise
  abbrev number_or : Text → Option ℕ → V.Value
  number_or value none = V.of_text value
  number_or value (some n) = V.of_number n

  -- `set_extra_item`, by the value that it sets
  unfoldable pub extra_value : Text → Text → V.Value
  extra_value key value =
      if member key
        (codes "nullable" ∷ codes "primary_key" ∷ codes "size_known" ∷ codes "unique" ∷ [])
      then (if text_eq value (codes "true")
          then V.of_bool true
          else if text_eq value (codes "false")
          then V.of_bool false
          else V.of_text value)
      else if member key (codes "row_count" ∷ codes "size_bytes" ∷ [])
      then number_or value (parse_u64 value)
      else if text_eq key (codes "ordinal")
      then number_or value (parse_u32 value)
      else if text_eq key (codes "columns")
      then V.of_texts (keep (λ column. not (text_eq column [])) (split b',' value))
      else V.of_text value

  -- the extra entries, without those of a key that is taken
  unfoldable pub set_extra_items : List (Text × Text) → PyDict V
  set_extra_items [] = []
  set_extra_items ((key, value) ∷ extra) =
      let rest = set_extra_items extra in
      if member key (codes "name" ∷ codes "size" ∷ codes "type" ∷ [])
      then rest
      else (key, extra_value key value) ∷ rest

  unfoldable pub file_info_to_dict : (I : InfoFields) → I.FileInfo → PyDict V
  file_info_to_dict I info =
      (codes "name", V.of_text (I.name info))
      ∷ (codes "size", V.of_number (I.size info))
      ∷ (codes "type", V.of_text (type_str (I.file_type info)))
      ∷ set_extra_items (I.extra info)
