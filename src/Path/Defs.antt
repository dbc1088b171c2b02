-- ===== src/Path/Defs.antt =====
-- rust/src/path.rs: formats, facets and parsed paths.
use fsspec_db.Prelude.{Option, none, some, List, [], if◌then◌else◌}
use fsspec_db.Prelude.Text.{Text, codes, text_eq}

pub data DataFormat : Type 0 where
  parquet arrow csv jsonl sql : DataFormat

-- `DataFormat::extension`
unfoldable pub extension : DataFormat → Text
extension parquet = codes "parquet"
extension arrow = codes "arrow"
extension csv = codes "csv"
extension jsonl = codes "jsonl"
extension sql = codes "sql"

-- `DataFormat::parse`
unfoldable pub parse_format : Text → Option DataFormat
parse_format value =
    if text_eq value (codes "parquet")
    then some parquet
    else if text_eq value (codes "arrow")
    then some arrow
    else if text_eq value (codes "csv")
    then some csv
    else if text_eq value (codes "jsonl")
    then some jsonl
    else if text_eq value (codes "sql")
    then some sql
    else none

pub data DbFacet : Type 0 where
  columns indexes constraints depends_on : DbFacet

-- `DbFacet::as_str`
unfoldable pub facet_str : DbFacet → Text
facet_str columns = codes "columns"
facet_str indexes = codes "indexes"
facet_str constraints = codes "constraints"
facet_str depends_on = codes "depends_on"

-- `DbFacet::parse`
unfoldable pub parse_facet : Text → Option DbFacet
parse_facet value =
    if text_eq value (codes "columns")
    then some columns
    else if text_eq value (codes "indexes")
    then some indexes
    else if text_eq value (codes "constraints")
    then some constraints
    else if text_eq value (codes "depends_on")
    then some depends_on
    else none

pub data DbPathKind : Type 0 where
  root schema relation : DbPathKind
  facet : DbFacet → Option Text → DbPathKind
  relation_data : DataFormat → DbPathKind
  view_definition : DbPathKind

pub record DbPath : Type 0 where
  pub schema : Option Text
  pub relation : Option Text
  pub kind : DbPathKind
  pub query : List (Text × Text)

-- `DbPath::root`
abbrev pub root_path : DbPath
root_path = record { schema = none; relation = none; kind = root; query = [] }
