-- ===== src/Path/Print.antt =====
-- rust/src/path.rs: `DbPath::to_path` and the paths of single objects.
use fsspec_db.Prelude.{Option, none, some, ◌++◌, map, if◌then◌else◌, is_empty}
use fsspec_db.Prelude.Text.{Text, codes, join}
use fsspec_db.Path.Defs.{DataFormat, extension, DbFacet, facet_str, DbPathKind, DbPath}

-- `DbPath::schema_path`
unfoldable pub schema_path : Text → Text
schema_path schema = codes "/" ++ schema

-- `DbPath::relation_path`
unfoldable pub relation_path : Text → Text → Text
relation_path schema relation = codes "/" ++ (schema ++ (codes "/" ++ relation))

-- `DbPath::facet_path`
unfoldable pub facet_path : Text → Text → DbFacet → Text
unfolding facet_str
facet_path schema relation facet =
    codes "/" ++ (schema ++ (codes "/" ++ (relation ++ (codes "/" ++ facet_str facet))))

-- `DbPath::facet_item_path`
unfoldable pub facet_item_path : Text → Text → DbFacet → Text → Text
unfolding facet_str
facet_item_path schema relation facet item =
    codes "/"
    ++ (schema
        ++ (codes "/" ++ (relation ++ (codes "/" ++ (facet_str facet ++ (codes "/" ++ item))))))

-- `DbPath::relation_data_path`
unfoldable pub relation_data_path : Text → Text → DataFormat → Text
unfolding extension
relation_data_path schema relation format =
    codes "/" ++ (schema ++ (codes "/" ++ (relation ++ (codes "." ++ extension format))))

-- `DbPath::view_definition_path`
unfoldable pub view_definition_path : Text → Text → Text
view_definition_path schema relation =
    codes "/" ++ (schema ++ (codes "/" ++ (relation ++ codes "/definition.sql")))

-- the `match` of `to_path`, on the schema, the relation and the kind
unfoldable pub base_path : Option Text → Option Text → DbPathKind → Text
unfolding facet_str extension
base_path _ _ DbPathKind.root = codes "/"
base_path (some schema) _ DbPathKind.schema = codes "/" ++ schema
base_path (some schema) (some relation) DbPathKind.relation =
    codes "/" ++ (schema ++ (codes "/" ++ relation))
base_path (some schema) (some relation) (DbPathKind.facet f item) =
    let base = codes "/" ++ (schema ++ (codes "/" ++ (relation ++ (codes "/" ++ facet_str f)))) in
    elim item [ some i ↦ base ++ (codes "/" ++ i) | none ↦ base ]
base_path (some schema) (some relation) (DbPathKind.relation_data format) =
    codes "/" ++ (schema ++ (codes "/" ++ (relation ++ (codes "." ++ extension format))))
base_path (some schema) (some relation) DbPathKind.view_definition =
    codes "/" ++ (schema ++ (codes "/" ++ (relation ++ codes "/definition.sql")))
base_path _ _ _ = codes "/"

unfoldable pub print_pair : Text × Text → Text
print_pair (key, value) = key ++ (codes "=" ++ value)

-- `DbPath::to_path`
unfoldable pub to_path : DbPath → Text
unfolding base_path print_pair join
to_path p =
    let path = base_path p.schema p.relation p.kind in
    if is_empty p.query
    then path
    else path ++ (codes "?" ++ join (codes "&") (map print_pair p.query))
