-- ===== src/Fs/Slice.antt =====
-- rust/src/fs.rs: the range of a file, and the reading of a range.
use fsspec_db.Prelude.{
  ℕ, zero, suc, ◌-◌, ◌≤◌, ◌≡◌, refl, sym, Option, none, some, [], ◌∷◌, length, take, drop, leb,
  if◌then◌else◌, min, arith, Bool-cases, inl, inr,
}
use fsspec_db.Stream.Codec.{Bytes}
use fsspec_db.Stream.Defs.{Offset, at, before}

-- the two matches of `slice_materialized`, on the value for `None`; adding the length to a negative
-- offset and taking the maximum with 0 is the subtraction that stops at 0
unfoldable pub range_index : ℕ → ℕ → Option Offset → ℕ
range_index len default none = default
range_index len default (some (at n)) = n
range_index len default (some (before n)) = len - suc n

-- `&data[start..end]` in `Vec`s of fewer than 2^63 bytes
unfoldable pub slice_materialized : Bytes → Option Offset → Option Offset → Bytes
slice_materialized contents first last =
    let start = range_index (length contents) 0 first in
    let end = range_index (length contents) (length contents) last in
    if leb end start
    then []
    else drop (min start (length contents)) (take (min end (length contents)) contents)

-- Python's index of a slice, kept within the data.
abbrev pub python_index : ℕ → ℕ → Option Offset → ℕ
python_index len default none = default
python_index len default (some (at n)) = min n len
python_index len default (some (before n)) = len - suc n

take_nil : (n : ℕ) → take {A = ℕ} n [] ≡ []
take_nil zero = refl
take_nil (suc n) = refl

drop-take : (n m : ℕ) (xs : Bytes) → drop n (take m xs) ≡ take (m - n) (drop n xs)
drop-take zero m xs = let e : m - 0 ≡ m = omega arith in rw e refl
drop-take (suc n) zero xs = let e : 0 - suc n ≡ 0 = omega arith in rw e refl
drop-take (suc n) (suc m) [] = sym (take_nil (suc m - suc n))
drop-take (suc n) (suc m) (x ∷ xs) =
    let e : suc m - suc n ≡ m - n = omega arith in rw e (drop-take n m xs)

python_index_lem :
    (len default : ℕ) (i : Option Offset)
    → default ≤ len
    → python_index len default i ≡ min (range_index len default i) len
unfolding range_index
python_index_lem len default none h = omega arith
python_index_lem len default (some (at n)) h = refl
python_index_lem len default (some (before n)) h = omega arith

-- A range of the data is the slice `data[first:last]` of Python, where an index below 0 counts from
-- the end and an index that is missing or out of range stands for the nearest end.
pub slice_materialized_lem :
    (contents : Bytes) (first last : Option Offset)
    → slice_materialized contents first last ≡ (
        let len = length contents in
        let start = python_index len 0 first in
        take (python_index len len last - start) (drop start contents))
unfolding slice_materialized
slice_materialized_lem contents first last =
    let len = length contents in
    let s = range_index len 0 first in
    let e = range_index len len last in
    rw (python_index_lem len 0 first (omega arith), python_index_lem len len last (omega arith))
      (elim (Bool-cases (leb e s)) [
        | inl h ↦ let nothing : min e len - min s len ≡ 0 = ground arith in rw (h, nothing)
        | inr h ↦ rw h (drop-take (min s len) (min e len) contents)
      ])
