-- ===== src/Fs/Kinds.antt =====
-- Which paths are listed, by their kind.
use fsspec_db.Prelude.{◌≡◌, refl, Bool, true, false, Option, none, some, List, [], ◌∷◌, ◌++◌, map}
use fsspec_db.Prelude.Text.{Text, codes}
use fsspec_db.Error.{DbError, Result, ok, err, collect}
use fsspec_db.Path.Defs.{DbPathKind, DbPath}
use fsspec_db.Types.{RelationInfo, RelationKind}
use fsspec_db.Sql.Parser.{SqlParser}
use fsspec_db.Stream.Codec.{Registry, InfoOps}
use fsspec_db.Fs.Database.{Database}
use fsspec_db.Fs.Dispatch.{required_schema, required_relation, ensure_schema}

-- The call succeeds.
abbrev pub Gives : {A : Type 0} → Result A → Type 0
Gives {A} m = (a : A) × (m ≡ ok a)

abbrev pub is_directory : DbPathKind → Bool
is_directory DbPathKind.root = true
is_directory DbPathKind.schema = true
is_directory DbPathKind.relation = true
is_directory (DbPathKind.facet f none) = true
is_directory (DbPathKind.facet f (some item)) = false
is_directory (DbPathKind.relation_data format) = false
is_directory DbPathKind.view_definition = false

-- A directory is listed; what is none is refused.
abbrev pub IsListing : {Info : Type 0} → Text → Bool → Result (List Info) → Type 0
IsListing path true m = Gives m
IsListing path false m = m ≡ err (DbError.not_a_directory (codes "not a directory: " ++ path))

-- the definition that a view has
abbrev pub HasDefinition : RelationKind → Result Text → Type 0
HasDefinition RelationKind.table m = Unit
HasDefinition RelationKind.view m = Gives m

pub collect_ok :
    {A B : Type 0} (f : A → B) (xs : List A) → collect (λ x. ok (f x)) xs ≡ ok (map f xs)
unfolding collect
collect_ok f [] = refl
collect_ok f (x ∷ xs) = rw (collect_ok f xs) refl

pub both :
    (parsed : DbPath) {s r : Text}
    → parsed.schema ≡ some s
    → parsed.relation ≡ some r
    → required_relation parsed ≡ ok (s, r)
unfolding required_relation required_schema
both parsed e f = rw (e, f) refl

module _ {R : Registry} (I : InfoOps) (p : SqlParser) (db : Database R) where
  -- The database answers what it is asked about a relation.
  pub record AnswersRelation (schema relation : Text) : Type 0 where
    pub info : RelationInfo
    pub known : db.relation_info schema relation ≡ ok info
    pub columns : Gives (db.list_columns schema relation)
    pub indexes : Gives (db.list_indexes schema relation)
    pub constraints : Gives (db.list_constraints schema relation)
    pub definition : HasDefinition info.kind (db.view_definition schema relation)

  -- The database answers what it is asked about the schema and the relation of a path.
  abbrev pub AnswersFor : Option Text → Option Text → Type 0
  AnswersFor none relation = Gives db.list_schemas
  AnswersFor (some schema) none =
      Gives (ensure_schema I p db schema) × Gives (db.list_relations schema)
  AnswersFor (some schema) (some relation) = AnswersRelation schema relation
