-- ===== src/Python/Tests.antt =====
-- A file that counts its commits and whose first commit fails, values of Python as data, and the
-- theorems at them.
use fsspec_db.Prelude.{
  ℕ, zero, suc, ◌<◌, ◌^◌, ◌≡◌, refl, Bool, true, false, none, some, List, [], ◌∷◌, ltb,
  if◌then◌else◌, arith,
}
use fsspec_db.Prelude.Text.{Text, codes}
use fsspec_db.Prelude.Int.{negsuc}
use fsspec_db.Error.{DbError}
use fsspec_db.Types.{SchemaInfo, RelationInfo, ColumnInfo, IndexInfo, ConstraintInfo}
use fsspec_db.Fs.Calls.{OpenMode}
use fsspec_db.Fs.Errors.{FsError, from_db}
use fsspec_db.Python.Errors.{
  PyResult, raised, returned, value_error, fs_error_to_pyerr, db_error_to_pyerr,
}
use fsspec_db.Python.Objects.{
  PyValues, dict, schema_from_py, relation_from_py, column_from_py, index_from_py,
  constraint_from_py, schema_to_dict, relation_to_dict, column_to_dict, index_to_dict,
  constraint_to_dict,
}
use fsspec_db.Python.Infos.{extra_value, set_extra_items, parse_u32}
use fsspec_db.Prelude.Decimal.{parse_u64, scan}
use fsspec_db.Prelude.Text.{split, member}
use fsspec_db.Python.RoundTrip.{IsFaithful, Fits, from_py-to_dict}
use fsspec_db.Python.File.{
  FsFile, Outcome, Call, tell, close, call_open, read_open, seek_open, seek_position, call,
  call_closed, run,
}
use fsspec_db.Python.Life.{Life, run-Life}

-- An error that comes by way of the file system reaches Python as it does from the database.
same_error : (e : DbError) → fs_error_to_pyerr (from_db e) ≡ db_error_to_pyerr e
unfolding fs_error_to_pyerr from_db db_error_to_pyerr
same_error (DbError.not_found m) = refl
same_error (DbError.permission_denied m) = refl
same_error (DbError.already_exists m) = refl
same_error (DbError.not_a_directory m) = refl
same_error (DbError.is_a_directory m) = refl
same_error (DbError.invalid_argument m) = refl
same_error (DbError.not_supported m) = refl
same_error (DbError.io e) = refl
same_error (DbError.arrow e) = refl
same_error (DbError.parquet e) = refl
same_error (DbError.other m) = refl

abbrev commit_once : ℕ → Outcome FsError (Unit {0}) × ℕ
commit_once zero = (Outcome.failed (FsError.other (codes "busy")), 1)
commit_once (suc n) = (Outcome.done tt, suc (suc n))

abbrev counting : FsFile
counting = record {
  State = ℕ;
  read_to_end = λ s. (Outcome.done [], s);
  read = λ n s. (Outcome.done [], s);
  write = λ data_bytes s. (Outcome.done 0, s);
  seek = λ position s. (Outcome.done 7, s);
  flush = λ s. (Outcome.done tt, s);
  commit = commit_once;
  discard = λ s. (Outcome.done tt, s);
  size = λ s. Outcome.done none;
}

abbrev calls : List Call
calls = tell ∷ close ∷ Call.read (negsuc 0) ∷ close ∷ Call.write [] ∷ close ∷ []

run_test : (run counting calls (record { inner = some 0; mode = OpenMode.write })).1.inner ≡ none
unfolding run call call_open read_open seek_open seek_position call_closed
run_test = refl

run-Life_example :
    Life counting calls
      (run counting calls (record { inner = some 0; mode = OpenMode.write })).0
      (run counting calls (record { inner = some 0; mode = OpenMode.write })).1.inner
run-Life_example = run-Life counting calls 0 OpenMode.write

data PyValue : Type 0 where
  nothing : PyValue
  text : Text → PyValue
  bool : Bool → PyValue
  number : ℕ → PyValue
  texts : List Text → PyValue

abbrev wrong_type : {A : Type 0} → PyResult A
wrong_type = raised (value_error (codes "wrong type"))

abbrev fitting : ℕ → ℕ → PyResult ℕ
fitting bound n = if ltb n bound then returned n else wrong_type

abbrev is_nothing : PyValue → Bool
is_nothing PyValue.nothing = true
is_nothing _ = false

abbrev to_text : PyValue → PyResult Text
to_text (PyValue.text t) = returned t
to_text _ = wrong_type

abbrev to_bool : PyValue → PyResult Bool
to_bool (PyValue.bool b) = returned b
to_bool _ = wrong_type

abbrev to_texts : PyValue → PyResult (List Text)
to_texts (PyValue.texts ts) = returned ts
to_texts _ = wrong_type

abbrev to_number : ℕ → PyValue → PyResult ℕ
to_number bound (PyValue.number n) = fitting bound n
to_number bound _ = wrong_type

abbrev plain : PyValues
plain = record {
  Value = PyValue;
  nothing = PyValue.nothing;
  of_text = PyValue.text;
  of_bool = PyValue.bool;
  of_number = PyValue.number;
  of_texts = PyValue.texts;
  is_none = is_nothing;
  as_text = to_text;
  as_bool = to_bool;
  as_u32 = to_number (2 ^ 32);
  as_u64 = to_number (2 ^ 64);
  as_texts = to_texts;
}

fitting_lem : (bound n : ℕ) → n < bound → fitting bound n ≡ returned n
fitting_lem bound n h = ground arith

plain-IsFaithful : IsFaithful plain
plain-IsFaithful = record {
  nothing_none = refl;
  text_some = λ t. refl;
  bool_some = λ b. refl;
  number_some = λ n. refl;
  text = λ t. refl;
  bool = λ b. refl;
  texts = λ ts. refl;
  u32 = fitting_lem (2 ^ 32);
  u64 = fitting_lem (2 ^ 64);
}

from_py-to_dict_example :
    ((s : SchemaInfo) → schema_from_py plain (dict (schema_to_dict plain s)) ≡ returned s)
    × ((i : IndexInfo) → index_from_py plain (dict (index_to_dict plain i)) ≡ returned i)
    × ((c : ConstraintInfo)
        → constraint_from_py plain (dict (constraint_to_dict plain c)) ≡ returned c)
    × ((r : RelationInfo)
        → Fits r.row_count
        → Fits r.size_bytes
        → relation_from_py plain (dict (relation_to_dict plain r)) ≡ returned r)
    × ((c : ColumnInfo)
        → c.ordinal < 2 ^ 32
        → column_from_py plain (dict (column_to_dict plain c)) ≡ returned c)
from_py-to_dict_example = from_py-to_dict plain plain-IsFaithful

extra_tests :
    (extra_value plain (codes "ordinal") (codes "7") ≡ PyValue.number 7)
    × (extra_value plain (codes "ordinal") (codes "4294967296") ≡ PyValue.text (codes "4294967296"))
    × (extra_value plain (codes "nullable") (codes "false") ≡ PyValue.bool false)
    × (extra_value plain (codes "columns") (codes "a,,b")
        ≡ PyValue.texts (codes "a" ∷ codes "b" ∷ []))
    × (set_extra_items plain ((codes "type", codes "x") ∷ (codes "kind", codes "table") ∷ [])
        ≡ (codes "kind", PyValue.text (codes "table")) ∷ [])
unfolding set_extra_items extra_value parse_u32 parse_u64 scan split member
extra_tests = (refl, refl, refl, refl, refl)
