-- ===== src/Postgres/Catalogue.antt =====
-- rust/src/postgres.rs: the words of the catalogue.
use fsspec_db.Prelude.{not, List, ◌++◌, if◌then◌else◌, is_empty, keep}
use fsspec_db.Prelude.Text.{Text, codes, text_eq, split}
use fsspec_db.Error.{DbError, Result, ok, err}
use fsspec_db.Types.{RelationKind, ConstraintKind}

unfoldable pub relation_kind : Text → Result RelationKind
relation_kind table_type =
    if text_eq table_type (codes "BASE TABLE")
    then ok RelationKind.table
    else if text_eq table_type (codes "VIEW")
    then ok RelationKind.view
    else err (DbError.other (codes "unknown postgres relation type: " ++ table_type))

unfoldable pub constraint_kind : Text → Result ConstraintKind
constraint_kind constraint_type =
    if text_eq constraint_type (codes "p")
    then ok ConstraintKind.primary_key
    else if text_eq constraint_type (codes "f")
    then ok ConstraintKind.foreign_key
    else if text_eq constraint_type (codes "u")
    then ok ConstraintKind.unique
    else if text_eq constraint_type (codes "c")
    then ok ConstraintKind.check
    else err (DbError.other (codes "unknown postgres constraint type: " ++ constraint_type))

unfoldable pub split_csv : Text → List Text
split_csv value = keep (λ item. not (is_empty item)) (split b',' value)
