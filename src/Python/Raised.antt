-- ===== src/Python/Raised.antt =====
-- rust/python/database.rs and rust/src/error.rs: the way of an exception, out of a database written in
-- Python, through the crate's errors, and back to Python.
use fsspec_db.Prelude.Text.{Text}
use fsspec_db.Python.Errors.{PyErrKind, file_not_found, permission, file_exists, os}

-- The class that a caller sees: of an exception that is none of the six, OSError.
abbrev pub seen : PyErrKind → PyErrKind
seen file_not_found = file_not_found
seen permission = permission
seen file_exists = file_exists
seen PyErrKind.not_a_directory = PyErrKind.not_a_directory
seen PyErrKind.is_a_directory = PyErrKind.is_a_directory
seen PyErrKind.value = PyErrKind.value
seen os = os
seen PyErrKind.other = os
