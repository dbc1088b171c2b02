-- ===== src/Fs/Dispatch.antt =====
-- rust/src/fs.rs: listing a path and its information, by the kind of the path.
use fsspec_db.Prelude.{none, some, List, [], ◌∷◌, ◌++◌, map, length, if◌then◌else◌}
use fsspec_db.Prelude.Text.{Text, codes, text_eq}
use fsspec_db.Prelude.Utf8.{encode}
use fsspec_db.Error.{DbError, Result, ok, err, ◌>>=◌, ok_or}
use fsspec_db.Path.Defs.{DbFacet, DbPathKind, DbPath}
use fsspec_db.Path.Parse.{parse}
use fsspec_db.Types.{SchemaInfo, RelationInfo}
use fsspec_db.Sql.Parser.{SqlParser}
use fsspec_db.Stream.Codec.{Registry, InfoOps}
use fsspec_db.Fs.Database.{Database}
use fsspec_db.Fs.Infos.{
  schema_info, relation_info, facet_dir, relation_data_file, view_definition_file,
}
use fsspec_db.Fs.Facets.{find, is_view, facet_entries, facet_item_info}

unfoldable pub required_schema : DbPath → Result Text
required_schema path =
    ok_or path.schema (DbError.invalid_argument (codes "schema path is missing schema"))

unfoldable pub required_relation : DbPath → Result (Text × Text)
unfolding required_schema
required_relation path = do
  schema ← required_schema path
  relation ←
      ok_or path.relation (DbError.invalid_argument (codes "relation path is missing relation"))
  ok (schema, relation)

module _ {R : Registry} (I : InfoOps) (p : SqlParser) (db : Database R) where
  unfoldable pub ensure_schema : Text → Result SchemaInfo
  ensure_schema name = do
    schemas ← db.list_schemas
    ok_or (find (λ (s : SchemaInfo). text_eq s.name name) schemas)
        (DbError.not_found (codes "schema not found: " ++ name))

  -- the entries of a relation's directory
  unfoldable pub relation_entries : Text → Text → RelationInfo → List I.FileInfo
  relation_entries schema relation info =
      facet_dir I schema relation DbFacet.columns
      ∷ facet_dir I schema relation DbFacet.indexes
      ∷ facet_dir I schema relation DbFacet.constraints
      ∷ (if is_view info.kind
          then facet_dir I schema relation DbFacet.depends_on
            ∷ view_definition_file I schema relation 0
            ∷ []
          else [])

  -- the match of `ls_db`, on the kind of the parsed path
  unfoldable pub list_kind : Text → DbPath → DbPathKind → Result (List I.FileInfo)
  list_kind path parsed DbPathKind.root = do
    schemas ← db.list_schemas
    ok (map (λ s. schema_info I s) schemas)
  list_kind path parsed DbPathKind.schema = do
    schema ← required_schema parsed
    _ ← ensure_schema schema
    relations ← db.list_relations schema
    ok (map (λ r. relation_info I schema r) relations)
  list_kind path parsed DbPathKind.relation = do
    names ← required_relation parsed
    info ← db.relation_info names.0 names.1
    ok (relation_entries names.0 names.1 info)
  list_kind path parsed (DbPathKind.facet facet none) = do
    names ← required_relation parsed
    facet_entries I p db names.0 names.1 facet
  list_kind path parsed _ = err (DbError.not_a_directory (codes "not a directory: " ++ path))

  unfoldable pub ls_db : Text → Result (List I.FileInfo)
  ls_db path = do parsed ← parse path; list_kind path parsed parsed.kind

  -- the match of `info_db`
  unfoldable pub info_kind : DbPath → DbPathKind → Result I.FileInfo
  info_kind parsed DbPathKind.root = ok (I.directory (codes "/"))
  info_kind parsed DbPathKind.schema = do
    schema ← required_schema parsed
    found ← ensure_schema schema
    ok (schema_info I found)
  info_kind parsed DbPathKind.relation = do
    names ← required_relation parsed
    info ← db.relation_info names.0 names.1
    ok (relation_info I names.0 info)
  info_kind parsed (DbPathKind.facet facet none) = do
    names ← required_relation parsed
    _ ← db.relation_info names.0 names.1
    ok (facet_dir I names.0 names.1 facet)
  info_kind parsed (DbPathKind.facet facet (some item)) = do
    names ← required_relation parsed
    facet_item_info I p db names.0 names.1 facet item
  info_kind parsed (DbPathKind.relation_data format) = do
    names ← required_relation parsed
    info ← db.relation_info names.0 names.1
    ok (relation_data_file I db.dialect names.0 names.1 info format)
  info_kind parsed DbPathKind.view_definition = do
    names ← required_relation parsed
    definition ← db.view_definition names.0 names.1
    ok (view_definition_file I names.0 names.1 (length (encode definition)))

  unfoldable pub info_db : Text → Result I.FileInfo
  info_db path = do parsed ← parse path; info_kind parsed parsed.kind
