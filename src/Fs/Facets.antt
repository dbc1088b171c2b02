-- ===== src/Fs/Facets.antt =====
-- rust/src/fs.rs: the metadata files of a relation.
use fsspec_db.Prelude.{
  Bool, true, false, not, Option, none, some, List, [], ◌∷◌, ◌++◌, map, keep, if◌then◌else◌,
}
use fsspec_db.Prelude.Text.{Text, codes, text_eq, rsplit_once}
use fsspec_db.Error.{DbError, Result, ok, ◌>>=◌, ok_or, collect}
use fsspec_db.Path.Defs.{DbFacet}
use fsspec_db.Types.{RelationKind}
use fsspec_db.Sql.Parser.{SqlParser, view_dependencies}
use fsspec_db.Stream.Codec.{Registry, InfoOps}
use fsspec_db.Fs.Database.{Database}
use fsspec_db.Fs.Infos.{column_info, index_info, constraint_info, depends_on_entry}

-- `into_iter().find(test)`
unfoldable pub find {ℓ} : {A : Type ℓ} → (A → Bool) → List A → Option A
find test [] = none
find test (x ∷ xs) = if test x then some x else find test xs

-- `name.rsplit('/').next()`
unfoldable pub last_part : Text → Text
last_part name = elim (rsplit_once b'/' name) [ none ↦ name | some parts ↦ parts.1 ]

-- the table of a dependency, without its schema
unfoldable pub dependency_table : Text → Text
dependency_table dependency = elim (rsplit_once b'.' dependency) [
  | none ↦ dependency
  | some parts ↦ parts.1
]

abbrev pub is_view : RelationKind → Bool
is_view RelationKind.table = false
is_view RelationKind.view = true

module _ {R : Registry} (I : InfoOps) (p : SqlParser) (db : Database R) where
  -- the entries for the dependencies of a view, but for the view itself
  unfoldable pub dependency_entries : Text → Text → Text → List I.FileInfo
  dependency_entries schema relation definition =
      map (λ dependency. depends_on_entry I schema relation dependency)
        (keep (λ dependency. not (text_eq (dependency_table dependency) relation))
          (view_dependencies p db.dialect definition))

  unfoldable pub facet_entries : Text → Text → DbFacet → Result (List I.FileInfo)
  facet_entries schema relation DbFacet.columns = do
    _ ← db.relation_info schema relation
    columns ← db.list_columns schema relation
    collect (λ column. ok (column_info I schema relation column)) columns
  facet_entries schema relation DbFacet.indexes = do
    _ ← db.relation_info schema relation
    indexes ← db.list_indexes schema relation
    collect (λ index. ok (index_info I schema relation index)) indexes
  facet_entries schema relation DbFacet.constraints = do
    _ ← db.relation_info schema relation
    constraints ← db.list_constraints schema relation
    collect (λ constraint. ok (constraint_info I schema relation constraint)) constraints
  facet_entries schema relation DbFacet.depends_on = do
    _ ← db.relation_info schema relation
    info ← db.relation_info schema relation
    if is_view info.kind
        then (do
          definition ← db.view_definition schema relation
          ok (dependency_entries schema relation definition))
        else ok []

  unfoldable pub facet_item_info : Text → Text → DbFacet → Text → Result I.FileInfo
  facet_item_info schema relation facet item = do
    entries ← facet_entries schema relation facet
    ok_or (find (λ entry. text_eq (last_part (I.name entry)) item) entries)
        (DbError.not_found (codes "database metadata item not found: " ++ item))
