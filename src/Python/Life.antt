-- ===== src/Python/Life.antt =====
-- The life of a `RustDbFile`: it ends with the first close, discard or exit that succeeds.
use fsspec_db.Prelude.{
  ℕ, ◌≡◌, refl, ap, ◌⊎◌, inl, inr, Bool, true, false, ◌&&◌, Option, none, some, List, [], ◌∷◌, map,
}
use fsspec_db.Prelude.Int.{ℤ, pos, negsuc}
use fsspec_db.Fs.Calls.{OpenMode}
use fsspec_db.Fs.Errors.{FsError}
use fsspec_db.Python.Errors.{PyResult, raised, returned, PyErr}
use fsspec_db.Python.File.{
  FsFile, Outcome, PyOutput, PyDbFile, Call, tell, flush, close, discard, closed, readable,
  writable, seekable, size, exit, seek_position, read_open, seek_open, call_open, call_closed, call,
  run, ended, exit_result,
}

-- the calls that end a file
abbrev pub is_ending : Call → Bool
is_ending close = true
is_ending discard = true
is_ending (exit raised_one) = true
is_ending _ = false

abbrev pub is_returned : PyResult PyOutput → Bool
is_returned (raised e) = false
is_returned (returned output) = true

PyResult-cases :
    {A : Type 0} (m : PyResult A) → ((e : PyErr) × (m ≡ raised e)) ⊎ ((a : A) × (m ≡ returned a))
PyResult-cases (raised e) = inl (e, refl)
PyResult-cases (returned a) = inr (a, refl)

module _ (F : FsFile) where
  -- Calls, what they give, and the file that they leave: open as long as no ending call has succeeded, and
  -- with the first that does it is dropped, and every later call finds it closed.
  pub data Life : List Call → List (PyResult PyOutput) → Option F.State → Type 0 where
    rests : {s : F.State} → Life [] [] (some s)
    works :
        {c : Call} {calls : List Call} {r : PyResult PyOutput} {results : List (PyResult PyOutput)}
        {last : Option F.State}
        → (is_ending c && is_returned r) ≡ false
        → Life calls results last
        → Life (c ∷ calls) (r ∷ results) last
    ends :
        {c : Call} {calls : List Call} {r : PyResult PyOutput}
        → (is_ending c && is_returned r) ≡ true
        → Life (c ∷ calls) (r ∷ map call_closed calls) none

  run-closed :
      (calls : List Call) (mode : OpenMode)
      → run F calls (record { inner = none; mode = mode })
        ≡ (map call_closed calls, record { inner = none; mode = mode })
  unfolding run call
  run-closed [] mode = refl
  run-closed (c ∷ calls) mode =
      ap (λ (x : List (PyResult PyOutput) × PyDbFile F). (call_closed c ∷ x.0, x.1))
        (run-closed calls mode)

  -- An open file is left open, or an ending call has succeeded.
  data Leaves (c : Call) : PyResult PyOutput × PyDbFile F → Type 0 where
    leaves_open :
        {r : PyResult PyOutput} {s : F.State} {mode : OpenMode}
        → (is_ending c && is_returned r) ≡ false
        → Leaves c (r, record { inner = some s; mode = mode })
    leaves_closed :
        {r : PyResult PyOutput} {mode : OpenMode}
        → (is_ending c && is_returned r) ≡ true
        → Leaves c (r, record { inner = none; mode = mode })

  ended-Leaves :
      (c : Call) (mode : OpenMode) (out : Outcome FsError (Unit {0}) × F.State)
      → is_ending c ≡ true
      → Leaves c (ended F mode out) × Leaves c (exit_result F (ended F mode out))
  ended-Leaves c mode (Outcome.failed e, s) h = (leaves_open (rw h refl), leaves_open (rw h refl))
  ended-Leaves c mode (Outcome.done _, s) h = (leaves_closed (rw h refl), leaves_closed (rw h refl))

  read-Leaves :
      (c : Call) (n : ℤ) (s : F.State) (mode : OpenMode)
      → is_ending c ≡ false
      → Leaves c (read_open F n s mode)
  unfolding read_open
  read-Leaves c (pos n) s mode h = leaves_open (rw h refl)
  read-Leaves c (negsuc n) s mode h = leaves_open (rw h refl)

  seek-Leaves :
      (c : Call) (offset : ℤ) (whence : ℕ) (s : F.State) (mode : OpenMode)
      → is_ending c ≡ false
      → Leaves c (seek_open F offset whence s mode)
  unfolding seek_open
  seek-Leaves c offset whence s mode h = elim (PyResult-cases (seek_position offset whence)) [
    | inl (e, p) ↦ rw (p, seek_open) (leaves_open (rw h refl))
    | inr (position, p) ↦ rw (p, seek_open) (leaves_open (rw h refl))
  ]

  call_open-Leaves : (c : Call) (s : F.State) (mode : OpenMode) → Leaves c (call_open F c s mode)
  unfolding call_open
  call_open-Leaves (Call.read n) s mode = read-Leaves (Call.read n) n s mode refl
  call_open-Leaves (Call.write data_bytes) s mode = leaves_open refl
  call_open-Leaves (Call.seek offset whence) s mode =
      seek-Leaves (Call.seek offset whence) offset whence s mode refl
  call_open-Leaves tell s mode = seek-Leaves tell (pos 0) 1 s mode refl
  call_open-Leaves flush s mode = leaves_open refl
  call_open-Leaves close s mode = (ended-Leaves close mode (F.commit s) refl).0
  call_open-Leaves discard s mode = (ended-Leaves discard mode (F.discard s) refl).0
  call_open-Leaves closed s mode = leaves_open refl
  call_open-Leaves readable s mode = leaves_open refl
  call_open-Leaves writable s mode = leaves_open refl
  call_open-Leaves seekable s mode = leaves_open refl
  call_open-Leaves size s mode = leaves_open refl
  call_open-Leaves (exit true) s mode = (ended-Leaves (exit true) mode (F.discard s) refl).1
  call_open-Leaves (exit false) s mode = (ended-Leaves (exit false) mode (F.commit s) refl).1

  Leaves-Life :
      (c : Call) (calls : List Call) (out : PyResult PyOutput × PyDbFile F)
      → Leaves c out
      → ((s : F.State) (mode : OpenMode)
          → let next = run F calls (record { inner = some s; mode = mode }) in
            Life calls next.0 next.1.inner)
      → Life (c ∷ calls) (out.0 ∷ (run F calls out.1).0) (run F calls out.1).1.inner
  Leaves-Life c calls _ (leaves_open {s = s} {mode = mode} h) rest = works h (rest s mode)
  Leaves-Life c calls _ (leaves_closed {mode = mode} h) rest = rw (run-closed calls mode) (ends h)

  -- Whatever is called on an open file, and whatever fails, it stays open until the first close, discard or
  -- exit that succeeds; from then on it has been let go of, and every call answers as on a closed file.
  pub run-Life :
      (calls : List Call) (s : F.State) (mode : OpenMode)
      → (let last = run F calls (record { inner = some s; mode = mode }) in
          Life calls last.0 last.1.inner)
  unfolding run call
  run-Life [] s mode = rests
  run-Life (c ∷ calls) s mode =
      Leaves-Life c calls (call_open F c s mode) (call_open-Leaves c s mode) (run-Life calls)
