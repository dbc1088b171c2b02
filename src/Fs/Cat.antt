-- ===== src/Fs/Cat.antt =====
-- rust/src/fs.rs: `cat_file_db`, the range of a file that is read by the standard library's
-- `read_to_end` and `take`. They are documented to read until a read gives no bytes; how large the
-- buffers are is theirs to choose: `suc (sizes k)` where `k` reads are left of the fuel.
use fsspec_db.Prelude.{
  ℕ, zero, suc, ◌-◌, Bool, true, false, ◌||◌, Option, none, some, [], ◌∷◌, ◌++◌, length, leb, ltb,
  min, ◌==◌, if◌then◌else◌,
}
use fsspec_db.Error.{Result, ok, err, from_io}
use fsspec_db.Stream.Codec.{Bytes, Io}
use fsspec_db.Stream.Defs.{Offset, at, before}
use fsspec_db.Fs.Slice.{slice_materialized}

-- what the range takes of an open file: `read` and `seek` from the start
pub record SeekableFile : Type 1 where
  pub State : Type 0
  pub read : ℕ → State → Io Bytes × State
  pub seek_start : ℕ → State → Io ℕ × State

-- A range that has been read, a panic of the file, or more reads than the fuel allows.
pub data Cat : Type 0 where
  finished : Result Bytes → Cat
  panicked : Cat
  out_of_fuel : Cat

abbrev pub before_rest : Bytes → Cat → Cat
before_rest front (finished (ok rest)) = finished (ok (front ++ rest))
before_rest front (finished (err e)) = finished (err e)
before_rest front panicked = panicked
before_rest front out_of_fuel = out_of_fuel

abbrev pub sliced : Option Offset → Option Offset → Cat → Cat
sliced first last (finished (ok contents)) = finished (ok (slice_materialized contents first last))
sliced first last (finished (err e)) = finished (err e)
sliced first last panicked = panicked
sliced first last out_of_fuel = out_of_fuel

-- `matches!(offset, Some(value) if value < 0)`
abbrev pub is_negative : Option Offset → Bool
is_negative (some (before n)) = true
is_negative _ = false

-- `start.unwrap_or(0).max(0)`
abbrev pub start_of : Option Offset → ℕ
start_of (some (at n)) = n
start_of _ = 0

-- by what a read gave: no bytes end the loop
abbrev pub go_on : Io Bytes → Cat → Cat
go_on (Io.done []) rest = finished (ok [])
go_on (Io.done (b ∷ bytes)) rest = before_rest (b ∷ bytes) rest
go_on (Io.failed e) rest = finished (err (from_io e))
go_on Io.panicked rest = panicked

abbrev pub count_of : Io Bytes → ℕ
count_of (Io.done bytes) = length bytes
count_of _ = 0

-- by what the seek gave
abbrev pub behind_seek : Io ℕ → Cat → Cat
behind_seek (Io.done n) rest = rest
behind_seek (Io.failed e) rest = finished (err (from_io e))
behind_seek Io.panicked rest = panicked

module _ (F : SeekableFile) (sizes : ℕ → ℕ) where
  unfoldable pub read_to_end : ℕ → F.State → Cat
  read_to_end zero s = out_of_fuel
  read_to_end (suc k) s = let out = F.read (suc (sizes k)) s in go_on out.0 (read_to_end k out.1)

  -- `file.take(limit).read_to_end`: at the limit the file is not read
  unfoldable pub read_limited : ℕ → ℕ → F.State → Cat
  read_limited limit zero s = out_of_fuel
  read_limited limit (suc k) s =
      let out = F.read (min (suc (sizes k)) limit) s in
      let rest = read_limited (limit - count_of out.0) k out.1 in
      if limit == 0 then finished (ok []) else go_on out.0 rest

  -- the match on the end of the range
  unfoldable pub read_range : ℕ → ℕ → Option Offset → F.State → Cat
  read_range fuel start none s = read_to_end fuel s
  read_range fuel start (some (at n)) s =
      let rest = read_limited (n - start) fuel s in if leb n start then finished (ok []) else rest
  read_range fuel start (some (before n)) s = finished (ok [])

  -- `cat_file_db` on the file that it has opened
  unfoldable pub cat_open : ℕ → Option Offset → Option Offset → F.State → Cat
  cat_open fuel first last s =
      let whole = sliced first last (read_to_end fuel s) in
      let moved = F.seek_start (start_of first) s in
      let behind = behind_seek moved.0 (read_range fuel (start_of first) last moved.1) in
      let here = read_range fuel 0 last s in
      if is_negative first || is_negative last
      then whole
      else if ltb 0 (start_of first)
      then behind
      else here
