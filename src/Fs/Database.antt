-- ===== src/Fs/Database.antt =====
-- rust/src/database.rs: what a back end gives the file system, as the database is during one
-- operation, and the options of a pool of connections.
use fsspec_db.Prelude.{ℕ, Bool, false, Option, none, some, List, ltb, ◌==◌, if◌then◌else◌}
use fsspec_db.Prelude.Text.{Text, codes}
use fsspec_db.Error.{Result, ok, err, invalid_argument}
use fsspec_db.Types.{SchemaInfo, RelationInfo, ColumnInfo, IndexInfo, ConstraintInfo, Dialect}
use fsspec_db.Stream.Codec.{Item, Registry}

pub data InsertMode : Type 0 where
  append truncate : InsertMode

-- `Database`, the calls that read. `query` is only called without parameters; the stream it gives is
-- the schema and the items of its reader.
pub record Database (R : Registry) : Type 0 where
  pub dialect : Dialect
  pub list_schemas : Result (List SchemaInfo)
  pub list_relations : Text → Result (List RelationInfo)
  pub list_columns : Text → Text → Result (List ColumnInfo)
  pub list_indexes : Text → Text → Result (List IndexInfo)
  pub list_constraints : Text → Text → Result (List ConstraintInfo)
  pub relation_info : Text → Text → Result RelationInfo
  pub view_definition : Text → Text → Result Text
  pub query : Text → Result (R.Schema × List (Item R.Batch))

pub record DbPoolOptions : Type 0 where
  pub min_connections : Option ℕ
  pub max_connections : Option ℕ

-- the second test of `validate`
unfoldable pub validate_bounds : Option ℕ → Option ℕ → Result {0} Unit
validate_bounds (some least) (some most) =
    if ltb most least
    then err (invalid_argument (codes "min_connections cannot exceed max_connections"))
    else ok tt
validate_bounds _ _ = ok tt

abbrev is_some_zero : Option ℕ → Bool
is_some_zero none = false
is_some_zero (some n) = n == 0

-- `DbPoolOptions::validate`
unfoldable pub validate : DbPoolOptions → Result {0} Unit
validate o =
    if is_some_zero o.max_connections
    then err (invalid_argument (codes "max_connections must be greater than 0"))
    else validate_bounds o.min_connections o.max_connections
