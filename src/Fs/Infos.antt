-- ===== src/Fs/Infos.antt =====
-- rust/src/fs.rs: the file information of every object.
use fsspec_db.Prelude.{ℕ, Bool, true, false, Option, none, some}
use fsspec_db.Prelude.Text.{Text, codes, join, rsplit_once}
use fsspec_db.Prelude.Decimal.{print}
use fsspec_db.Path.Defs.{DataFormat, extension, DbFacet, facet_str}
use fsspec_db.Path.Print.{
  schema_path, relation_path, facet_path, facet_item_path, relation_data_path, view_definition_path,
}
use fsspec_db.Types.{
  SchemaInfo, kind_str, RelationInfo, ColumnInfo, IndexInfo, constraint_str, ConstraintInfo,
  Dialect, dialect_str,
}
use fsspec_db.Stream.Codec.{InfoOps}

-- `bool::to_string`
abbrev bool_text : Bool → Text
bool_text true = codes "true"
bool_text false = codes "false"

module _ (I : InfoOps) where
  -- `info.extra.insert` of a value that is there
  abbrev pub insert_some : Text → Option Text → I.FileInfo → I.FileInfo
  insert_some key none info = info
  insert_some key (some value) info = I.insert_extra key value info

  abbrev insert_number : Text → Option ℕ → I.FileInfo → I.FileInfo
  insert_number key none info = info
  insert_number key (some value) info = I.insert_extra key (print value) info

  unfoldable pub schema_info : SchemaInfo → I.FileInfo
  schema_info s = insert_some (codes "comment") s.comment (
      insert_some (codes "catalog") s.catalog
        (I.insert_extra (codes "kind") (codes "schema") (I.directory (schema_path s.name))))

  unfoldable pub relation_info : Text → RelationInfo → I.FileInfo
  relation_info schema r = insert_some (codes "comment") r.comment (
      insert_number (codes "size_bytes") r.size_bytes (
        insert_number (codes "row_count") r.row_count (
          I.insert_extra (codes "kind") (kind_str r.kind)
            (I.directory (relation_path schema r.name)))))

  unfoldable pub facet_dir : Text → Text → DbFacet → I.FileInfo
  facet_dir schema relation facet =
      I.insert_extra (codes "kind") (facet_str facet)
        (I.directory (facet_path schema relation facet))

  unfoldable pub column_info : Text → Text → ColumnInfo → I.FileInfo
  column_info schema relation c = insert_some (codes "comment") c.comment (
      insert_some (codes "default") c.default (
        I.insert_extra (codes "primary_key") (bool_text c.primary_key) (
          I.insert_extra (codes "ordinal") (print c.ordinal) (
            I.insert_extra (codes "nullable") (bool_text c.nullable) (
              I.insert_extra (codes "data_type") c.data_type (
                I.insert_extra (codes "kind") (codes "column")
                  (I.file (facet_item_path schema relation DbFacet.columns c.name) 0)))))))

  unfoldable pub index_info : Text → Text → IndexInfo → I.FileInfo
  index_info schema relation i = insert_some (codes "method") i.method (
      I.insert_extra (codes "unique") (bool_text i.unique) (
        I.insert_extra (codes "columns") (join (codes ",") i.columns) (
          I.insert_extra (codes "kind") (codes "index")
            (I.file (facet_item_path schema relation DbFacet.indexes i.name) 0))))

  unfoldable pub constraint_info : Text → Text → ConstraintInfo → I.FileInfo
  constraint_info schema relation c = insert_some (codes "expr") c.expr (
      insert_some (codes "references") c.references (
        I.insert_extra (codes "columns") (join (codes ",") c.columns) (
          I.insert_extra (codes "kind") (constraint_str c.kind)
            (I.file (facet_item_path schema relation DbFacet.constraints c.name) 0))))

  unfoldable pub relation_data_file : Dialect → Text → Text → RelationInfo → DataFormat → I.FileInfo
  relation_data_file dialect schema relation r format =
      I.insert_extra (codes "dialect") (dialect_str dialect) (
        I.insert_extra (codes "format") (extension format) (
          I.insert_extra (codes "kind") (kind_str r.kind) (
            I.insert_extra (codes "size_known") (codes "false")
              (I.file (relation_data_path schema relation format) 0))))

  unfoldable pub view_definition_file : Text → Text → ℕ → I.FileInfo
  view_definition_file schema relation size = I.insert_extra (codes "format") (codes "sql") (
      I.insert_extra (codes "kind") (codes "view_definition")
        (I.file (view_definition_path schema relation) size))

  -- the schema and the relation that a dependency of a view names
  unfoldable pub dependency_target : Text → Text → Text × Text
  dependency_target schema dependency = elim (rsplit_once b'.' dependency) [
    | none ↦ (schema, dependency)
    | some target ↦ target
  ]

  unfoldable pub depends_on_entry : Text → Text → Text → I.FileInfo
  depends_on_entry schema relation dependency =
      let target = dependency_target schema dependency in
      I.insert_extra (codes "target") (relation_path target.0 target.1) (
        I.insert_extra (codes "kind") (codes "depends_on")
          (I.file (facet_item_path schema relation DbFacet.depends_on target.1) 0))
