-- ===== src/Types.antt =====
-- rust/src/types.rs: what the backends report about schemas, relations, columns, indexes and
-- constraints, with the names under which the kinds and dialects are printed.
use fsspec_db.Prelude.{ℕ, Bool, Option, List}
use fsspec_db.Prelude.Text.{Text, codes}

pub record SchemaInfo : Type 0 where
  pub name : Text
  pub catalog : Option Text
  pub comment : Option Text

pub data RelationKind : Type 0 where
  table view : RelationKind

-- `RelationKind::as_str`
unfoldable pub kind_str : RelationKind → Text
kind_str table = codes "table"
kind_str view = codes "view"

pub record RelationInfo : Type 0 where
  pub name : Text
  pub kind : RelationKind
  pub row_count : Option ℕ
  pub size_bytes : Option ℕ
  pub comment : Option Text

pub record ColumnInfo : Type 0 where
  pub name : Text
  pub data_type : Text
  pub nullable : Bool
  pub default : Option Text
  pub ordinal : ℕ
  pub primary_key : Bool
  pub comment : Option Text

pub record IndexInfo : Type 0 where
  pub name : Text
  pub columns : List Text
  pub unique : Bool
  pub method : Option Text

pub data ConstraintKind : Type 0 where
  primary_key foreign_key unique check : ConstraintKind

-- `ConstraintKind::as_str`
unfoldable pub constraint_str : ConstraintKind → Text
constraint_str primary_key = codes "pk"
constraint_str foreign_key = codes "fk"
constraint_str unique = codes "unique"
constraint_str check = codes "check"

pub record ConstraintInfo : Type 0 where
  pub name : Text
  pub kind : ConstraintKind
  pub columns : List Text
  pub references : Option Text
  pub expr : Option Text

pub data Dialect : Type 0 where
  generic sqlite postgres my_sql : Dialect

-- `Dialect::as_str`
unfoldable pub dialect_str : Dialect → Text
dialect_str generic = codes "generic"
dialect_str sqlite = codes "sqlite"
dialect_str postgres = codes "postgres"
dialect_str my_sql = codes "mysql"
