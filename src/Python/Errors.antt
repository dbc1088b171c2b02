-- ===== src/Python/Errors.antt =====
-- rust/python/database.rs: errors of Python, and the words that the bindings read.
use fsspec_db.Prelude.{◌++◌, [], ◌∷◌, if◌then◌else◌, ◌||◌}
use fsspec_db.Prelude.Text.{Text, codes, text_eq, member}
use fsspec_db.Error.{DbError, IoError, IoErrorKind}
use fsspec_db.Types.{Dialect, RelationKind, ConstraintKind}
use fsspec_db.Fs.Errors.{FsError}
use fsspec_db.Fs.Database.{InsertMode}

-- the classes that the bindings raise and look for; `other` for an exception of none of them
pub data PyErrKind : Type 0 where
  file_not_found permission file_exists not_a_directory is_a_directory : PyErrKind
  value os other : PyErrKind

-- `PyErr`
pub record PyErr : Type 0 where
  pub kind : PyErrKind
  pub message : Text

abbrev pub error : PyErrKind → Text → PyErr
error kind message = record { kind = kind; message = message }

-- `PyResult<A>`
pub data PyResult {ℓ} (A : Type ℓ) : Type ℓ where
  raised : PyErr → PyResult A
  returned : A → PyResult A

infixl 5 ◌>>=◌
-- `?`
abbrev pub ◌>>=◌ {κ ℓ} : {A : Type κ} {B : Type ℓ} → PyResult A → (A → PyResult B) → PyResult B
raised e >>= next = raised e
returned a >>= next = next a

abbrev pub value_error : Text → PyErr
value_error message = error PyErrKind.value message

unfoldable pub db_error_to_pyerr : DbError → PyErr
db_error_to_pyerr (DbError.not_found msg) = error file_not_found msg
db_error_to_pyerr (DbError.permission_denied msg) = error permission msg
db_error_to_pyerr (DbError.already_exists msg) = error file_exists msg
db_error_to_pyerr (DbError.not_a_directory msg) = error PyErrKind.not_a_directory msg
db_error_to_pyerr (DbError.is_a_directory msg) = error PyErrKind.is_a_directory msg
db_error_to_pyerr (DbError.invalid_argument msg) = value_error msg
db_error_to_pyerr (DbError.not_supported msg) = error os (codes "not supported: " ++ msg)
db_error_to_pyerr (DbError.io e) = error os e.message
db_error_to_pyerr (DbError.arrow e) = error os e
db_error_to_pyerr (DbError.parquet e) = error os e
db_error_to_pyerr (DbError.other msg) = error os msg

unfoldable pub fs_error_to_pyerr : FsError → PyErr
fs_error_to_pyerr (FsError.not_found msg) = error file_not_found msg
fs_error_to_pyerr (FsError.permission_denied msg) = error permission msg
fs_error_to_pyerr (FsError.already_exists msg) = error file_exists msg
fs_error_to_pyerr (FsError.not_a_directory msg) = error PyErrKind.not_a_directory msg
fs_error_to_pyerr (FsError.is_a_directory msg) = error PyErrKind.is_a_directory msg
fs_error_to_pyerr (FsError.io_error e) = error os e.message
fs_error_to_pyerr (FsError.invalid_argument msg) = value_error msg
fs_error_to_pyerr (FsError.not_supported msg) = error os (codes "not supported: " ++ msg)
fs_error_to_pyerr (FsError.other msg) = error os msg

-- `io_error_to_pyerr`, on the kinds that the crate names
unfoldable pub io_error_to_pyerr : IoError → PyErr
io_error_to_pyerr e = elim e.kind [
  | IoErrorKind.not_found ↦ error file_not_found e.message
  | IoErrorKind.permission_denied ↦ error permission e.message
  | IoErrorKind.already_exists ↦ error file_exists e.message
  | IoErrorKind.invalid_input ↦ value_error e.message
  | IoErrorKind.invalid_data ↦ value_error e.message
  | IoErrorKind.unsupported ↦ error os (codes "not supported: " ++ e.message)
  | IoErrorKind.other ↦ error os e.message
]

-- `show` is `err.to_string()` of PyO3
unfoldable pub pyerr_to_db_error : (PyErr → Text) → PyErr → DbError
pyerr_to_db_error show e = elim e.kind [
  | file_not_found ↦ DbError.not_found (show e)
  | permission ↦ DbError.permission_denied (show e)
  | file_exists ↦ DbError.already_exists (show e)
  | PyErrKind.not_a_directory ↦ DbError.not_a_directory (show e)
  | PyErrKind.is_a_directory ↦ DbError.is_a_directory (show e)
  | PyErrKind.value ↦ DbError.invalid_argument (show e)
  | os ↦ DbError.other (show e)
  | PyErrKind.other ↦ DbError.other (show e)
]

unfoldable pub parse_insert_mode : Text → PyResult InsertMode
parse_insert_mode mode =
    if member mode (codes "wb" ∷ codes "w" ∷ codes "overwrite" ∷ codes "truncate" ∷ [])
    then returned InsertMode.truncate
    else if member mode (codes "ab" ∷ codes "a" ∷ codes "append" ∷ [])
    then returned InsertMode.append
    else if member mode (codes "xb" ∷ codes "x" ∷ codes "create" ∷ [])
    then raised
        (value_error (codes "exclusive create is not supported for database relation writes"))
    else raised (value_error (codes "unsupported database write mode: " ++ mode))

unfoldable pub insert_mode_as_str : InsertMode → Text
insert_mode_as_str InsertMode.append = codes "append"
insert_mode_as_str InsertMode.truncate = codes "truncate"

unfoldable pub parse_dialect : Text → PyResult Dialect
parse_dialect dialect =
    if text_eq dialect (codes "generic")
    then returned Dialect.generic
    else if text_eq dialect (codes "sqlite")
    then returned Dialect.sqlite
    else if text_eq dialect (codes "postgres") || text_eq dialect (codes "postgresql")
    then returned Dialect.postgres
    else if text_eq dialect (codes "mysql")
    then returned Dialect.my_sql
    else raised (value_error (codes "unknown database dialect: " ++ dialect))

unfoldable pub relation_kind_from_str : Text → PyResult RelationKind
relation_kind_from_str kind =
    if text_eq kind (codes "table")
    then returned RelationKind.table
    else if text_eq kind (codes "view")
    then returned RelationKind.view
    else raised (value_error (codes "unknown relation kind: " ++ kind))

unfoldable pub constraint_kind_from_str : Text → PyResult ConstraintKind
constraint_kind_from_str kind =
    if text_eq kind (codes "pk")
    then returned ConstraintKind.primary_key
    else if text_eq kind (codes "fk")
    then returned ConstraintKind.foreign_key
    else if text_eq kind (codes "unique")
    then returned ConstraintKind.unique
    else if text_eq kind (codes "check")
    then returned ConstraintKind.check
    else raised (value_error (codes "unknown constraint kind: " ++ kind))
