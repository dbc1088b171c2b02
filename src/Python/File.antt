-- ===== src/Python/File.antt =====
-- rust/python/database.rs: `RustDbFile`, a file that is open until it is closed or discarded.
-- The file is a parameter, the record FsFile of what fsspec_rs gives; the lock is not poisoned.
use fsspec_db.Prelude.{
  ℕ, Bool, true, false, Option, none, some, List, [], ◌∷◌, if◌then◌else◌, not, ◌==◌,
}
use fsspec_db.Prelude.Text.{codes}
use fsspec_db.Prelude.Int.{ℤ, pos, negsuc}
use fsspec_db.Error.{IoError}
use fsspec_db.Stream.Codec.{Bytes}
use fsspec_db.Fs.Errors.{FsError}
use fsspec_db.Fs.Calls.{OpenMode}
use fsspec_db.Python.Errors.{
  PyResult, raised, returned, PyErr, value_error, io_error_to_pyerr, fs_error_to_pyerr,
}

-- `SeekFrom`
pub data SeekFrom : Type 0 where
  start : ℕ → SeekFrom
  current end : ℤ → SeekFrom

-- What a call gives, or the error that it fails with.
pub data Outcome (E A : Type 0) : Type 0 where
  failed : E → Outcome E A
  done : A → Outcome E A

-- `FsFile`: a call changes the file also where it fails. `read n` is a read into a buffer of n bytes, by
-- the bytes that it fills.
pub record FsFile : Type 1 where
  pub State : Type 0
  pub read_to_end : State → Outcome IoError Bytes × State
  pub read : ℕ → State → Outcome IoError Bytes × State
  pub write : Bytes → State → Outcome IoError ℕ × State
  pub seek : SeekFrom → State → Outcome IoError ℕ × State
  pub flush : State → Outcome IoError (Unit {0}) × State
  pub commit : State → Outcome FsError (Unit {0}) × State
  pub discard : State → Outcome FsError (Unit {0}) × State
  pub size : State → Outcome FsError (Option ℕ)

-- the values that the methods return
pub data PyOutput : Type 0 where
  nothing : PyOutput
  bytes : Bytes → PyOutput
  number : ℕ → PyOutput
  flag : Bool → PyOutput
  optional_number : Option ℕ → PyOutput

abbrev pub is_closed_error : PyErr
is_closed_error = value_error (codes "file is closed")

abbrev seek_start : ℤ → PyResult SeekFrom
seek_start (pos offset) = returned (start offset)
seek_start (negsuc n) = raised (value_error (codes "negative seek position"))

-- the match on `whence`, which is a `u8`
unfoldable pub seek_position : ℤ → ℕ → PyResult SeekFrom
seek_position offset whence =
    if whence == 0
    then seek_start offset
    else if whence == 1
    then returned (current offset)
    else if whence == 2
    then returned (end offset)
    else raised (value_error (codes "whence must be 0, 1, or 2"))

-- a call of a method
pub data Call : Type 0 where
  read : ℤ → Call
  write : Bytes → Call
  seek : ℤ → ℕ → Call
  tell flush close discard closed readable writable seekable size : Call
  -- `__exit__`, and whether there was an exception
  exit : Bool → Call

abbrev result_of : {E A : Type 0} → (E → PyErr) → (A → PyOutput) → Outcome E A → PyResult PyOutput
result_of error output (Outcome.failed e) = raised (error e)
result_of error output (Outcome.done a) = returned (output a)

abbrev no_output : {A : Type 0} → A → PyOutput
no_output a = nothing

abbrev is_read : OpenMode → Bool
is_read OpenMode.read = true
is_read _ = false

-- what the methods give on a closed file
unfoldable pub call_closed : Call → PyResult PyOutput
call_closed close = returned nothing
call_closed discard = returned nothing
call_closed closed = returned (flag true)
call_closed readable = returned (flag false)
call_closed writable = returned (flag false)
call_closed seekable = returned (flag false)
call_closed (exit raised_one) = returned (flag false)
call_closed _ = raised is_closed_error

module _ (F : FsFile) where
  -- `PyDbFile`, without its path
  pub record PyDbFile : Type 0 where
    pub inner : Option F.State
    pub mode : OpenMode

  -- the file behind a call on the open file
  abbrev pub after :
      {E A : Type 0}
      → (E → PyErr)
      → (A → PyOutput)
      → OpenMode
      → Outcome E A × F.State
      → PyResult PyOutput × PyDbFile
  after error output mode (outcome, s) =
      (result_of error output outcome, record { inner = some s; mode = mode })

  -- `close` and `discard` drop the file where they succeed
  abbrev pub ended : OpenMode → Outcome FsError (Unit {0}) × F.State → PyResult PyOutput × PyDbFile
  ended mode (Outcome.failed e, s) =
      (raised (fs_error_to_pyerr e), record { inner = some s; mode = mode })
  ended mode (Outcome.done _, s) = (returned nothing, record { inner = none; mode = mode })

  -- `__exit__` gives `false` where the file could be ended
  abbrev pub exit_result : PyResult PyOutput × PyDbFile → PyResult PyOutput × PyDbFile
  exit_result (raised e, file) = (raised e, file)
  exit_result (returned output, file) = (returned (flag false), file)

  -- `read`: all the rest for a negative size
  unfoldable pub read_open : ℤ → F.State → OpenMode → PyResult PyOutput × PyDbFile
  read_open (negsuc n) s mode = after io_error_to_pyerr bytes mode (F.read_to_end s)
  read_open (pos n) s mode = after io_error_to_pyerr bytes mode (F.read n s)

  unfoldable pub seek_open : ℤ → ℕ → F.State → OpenMode → PyResult PyOutput × PyDbFile
  seek_open offset whence s mode = elim (seek_position offset whence) [
    | raised e ↦ (raised e, record { inner = some s; mode = mode })
    | returned position ↦ after io_error_to_pyerr number mode (F.seek position s)
  ]

  -- the methods on an open file
  unfoldable pub call_open : Call → F.State → OpenMode → PyResult PyOutput × PyDbFile
  call_open (Call.read n) s mode = read_open n s mode
  call_open (Call.write data_bytes) s mode =
      after io_error_to_pyerr number mode (F.write data_bytes s)
  call_open (Call.seek offset whence) s mode = seek_open offset whence s mode
  call_open tell s mode = seek_open (pos 0) 1 s mode
  call_open flush s mode = after io_error_to_pyerr no_output mode (F.flush s)
  call_open close s mode = ended mode (F.commit s)
  call_open discard s mode = ended mode (F.discard s)
  call_open closed s mode = (returned (flag false), record { inner = some s; mode = mode })
  call_open readable s mode =
      (returned (flag (is_read mode)), record { inner = some s; mode = mode })
  call_open writable s mode =
      (returned (flag (not (is_read mode))), record { inner = some s; mode = mode })
  call_open seekable s mode = (returned (flag true), record { inner = some s; mode = mode })
  call_open size s mode = (
    result_of fs_error_to_pyerr optional_number (F.size s),
    record { inner = some s; mode = mode },
  )
  call_open (exit raised_one) s mode = elim raised_one [
    | true ↦ exit_result (ended mode (F.discard s))
    | false ↦ exit_result (ended mode (F.commit s))
  ]

  -- a method of `PyDbFile`
  unfoldable pub call : Call → PyDbFile → PyResult PyOutput × PyDbFile
  call c file = elim file.inner [ none ↦ (call_closed c, file) | some s ↦ call_open c s file.mode ]

  -- calls one after another, with what each gave
  unfoldable pub run : List Call → PyDbFile → List (PyResult PyOutput) × PyDbFile
  run [] file = ([], file)
  run (c ∷ calls) file =
      let (result, next) = call c file in
      let (results, last) = run calls next in (result ∷ results, last)
