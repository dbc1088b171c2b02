-- ===== src/Fs/Errors.antt =====
-- rust/src/error.rs: the errors of the file system, and what a `DbError` is as one.
use fsspec_db.Prelude.Text.{Text}
use fsspec_db.Error.{DbError, IoError, Result, ok, err}

-- `FsError` of fsspec_rs
pub data FsError : Type 0 where
  not_found permission_denied already_exists : Text → FsError
  not_a_directory is_a_directory invalid_argument not_supported : Text → FsError
  io_error : IoError → FsError
  other : Text → FsError

-- `From<DbError> for FsError`
unfoldable pub from_db : DbError → FsError
from_db (DbError.not_found msg) = FsError.not_found msg
from_db (DbError.permission_denied msg) = FsError.permission_denied msg
from_db (DbError.already_exists msg) = FsError.already_exists msg
from_db (DbError.not_a_directory msg) = FsError.not_a_directory msg
from_db (DbError.is_a_directory msg) = FsError.is_a_directory msg
from_db (DbError.invalid_argument msg) = FsError.invalid_argument msg
from_db (DbError.not_supported msg) = FsError.not_supported msg
from_db (DbError.io e) = FsError.io_error e
from_db (DbError.arrow e) = FsError.other e
from_db (DbError.parquet e) = FsError.other e
from_db (DbError.other msg) = FsError.other msg

-- `FsResult<A>`
pub data FsResult (A : Type 0) : Type 0 where
  failed : FsError → FsResult A
  done : A → FsResult A

-- `.map_err(FsError::from)`
abbrev pub map_err : {A : Type 0} → Result A → FsResult A
map_err (err e) = failed (from_db e)
map_err (ok a) = done a
