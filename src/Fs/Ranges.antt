-- ===== src/Fs/Ranges.antt =====
-- The range that `cat_file` reads is Python's slice of the whole file.
use fsspec_db.Prelude.{
  ℕ, zero, suc, ◌+◌, ◌-◌, ◌<◌, ◌≤◌, ◌≡◌, ◌≢◌, refl, sym, ap, ◌∙◌, inl, inr, false, Option, none,
  some, [], ◌∷◌, length, take, drop, min, leb, ltb, ◌==◌, Bool-cases, drop-drop, length-drop,
  length-take, take_all, front-rest, front-take, some_length, take_clip, drop_clip, arith,
}
use fsspec_db.Error.{ok}
use fsspec_db.Stream.Codec.{Bytes, Io}
use fsspec_db.Stream.Defs.{Offset, at, before}
use fsspec_db.Fs.Slice.{python_index, slice_materialized_lem}
use fsspec_db.Fs.Cat.{
  SeekableFile, Cat, finished, before_rest, sliced, is_negative, go_on, count_of, read_to_end,
  read_limited, read_range, behind_seek, cat_open,
}

-- A file that reads as the bytes: in a state that stands at a position, a read gives the bytes from
-- there on that fit the buffer and moves behind them, and a seek moves to where it says.
pub record ReadsAs (F : SeekableFile) (full : Bytes) : Type 1 where
  pub Stands : F.State → ℕ → Type 0
  pub reads :
      (size position : ℕ) (s : F.State)
      → Stands s position
      → ((F.read size s).0 ≡ Io.done (take size (drop position full)))
        × Stands (F.read size s).1 (position + length (take size (drop position full)))
  pub seeks :
      (to position : ℕ) (s : F.State)
      → Stands s position
      → ((F.seek_start to s).0 ≡ Io.done to) × Stands (F.seek_start to s).1 to

-- The left of the bytes is less after a read that gives some.
less_left :
    (n position : ℕ) (full : Bytes) {k : ℕ}
    → drop position full ≢ []
    → length full - position < suc k
    → length full - (position + length (take (suc n) (drop position full))) < k
less_left n position full some_left h =
    let l = length-take (suc n) (drop position full) in
    let d = length-drop position full in
    let z = some_length (drop position full) some_left in omega arith

go_on-all :
    (n : ℕ) (ys : Bytes) (rest : Cat)
    → (ys ≢ [] → rest ≡ finished (ok (drop (length (take (suc n) ys)) ys)))
    → go_on (Io.done (take (suc n) ys)) rest ≡ finished (ok ys)
go_on-all n [] rest h = refl
go_on-all n (y ∷ ys) rest h =
    ap (before_rest (y ∷ take n ys)) (h (λ e. cc))
    ∙ ap (λ l. finished (ok (y ∷ l))) (front-rest n ys)

go_on-take :
    (n m : ℕ) (ys : Bytes) (rest : Cat)
    → n ≤ m
    → (ys ≢ []
        → rest
          ≡ finished
              (ok (take (suc m - length (take (suc n) ys)) (drop (length (take (suc n) ys)) ys))))
    → go_on (Io.done (take (suc n) ys)) rest ≡ finished (ok (take (suc m) ys))
go_on-take n m [] rest l h = refl
go_on-take n m (y ∷ ys) rest l h =
    ap (before_rest (y ∷ take n ys)) (h (λ e. cc))
    ∙ ap (λ x. finished (ok x)) (front-take (suc n) (suc m) (y ∷ ys) (omega arith))

module _ (F : SeekableFile) (sizes : ℕ → ℕ) (full : Bytes) (r : ReadsAs F full) where
  read_to_end_lem :
      (fuel position : ℕ) (s : F.State)
      → r.Stands s position
      → length full - position < fuel
      → read_to_end F sizes fuel s ≡ finished (ok (drop position full))
  unfolding read_to_end
  read_to_end_lem zero position s h l = absurd (omega arith)
  read_to_end_lem (suc k) position s h l =
      let size = suc (sizes k) in
      let (p, h') = r.reads size position s h in
      let ys = drop position full in
      let rest = read_to_end F sizes k (F.read size s).1 in
      ap (λ out. go_on out rest) p
      ∙ go_on-all (sizes k) ys rest (λ some_left.
        read_to_end_lem k (position + length (take size ys)) (F.read size s).1 h'
          (less_left (sizes k) position full some_left l)
        ∙ ap (λ x. finished (ok x)) (sym (drop-drop (length (take size ys)) position full)))

  limited_zero : (k : ℕ) (s : F.State) → read_limited F sizes 0 (suc k) s ≡ finished (ok [])
  unfolding read_limited
  limited_zero k s = refl

  read_limited_lem :
      (fuel limit position : ℕ) (s : F.State)
      → r.Stands s position
      → length full - position < fuel
      → read_limited F sizes limit fuel s ≡ finished (ok (take limit (drop position full)))
  unfolding read_limited
  read_limited_lem zero limit position s h l = absurd (omega arith)
  read_limited_lem (suc k) zero position s h l = refl
  read_limited_lem (suc k) (suc m) position s h l =
      let n = min (sizes k) m in
      let e : min (suc (sizes k)) (suc m) ≡ suc n = omega arith in
      let (p, h') = r.reads (suc n) position s h in
      let ys = drop position full in
      let z : (suc m == 0) ≡ false = ground arith in
      rw (e, z)
        (ap (λ out. go_on out (read_limited F sizes (suc m - count_of out) k (F.read (suc n) s).1))
            p
          ∙ go_on-take n m ys
              (read_limited F sizes (suc m - length (take (suc n) ys)) k (F.read (suc n) s).1)
              (omega arith)
              (λ some_left.
                read_limited_lem k (suc m - length (take (suc n) ys))
                  (position + length (take (suc n) ys)) (F.read (suc n) s).1 h'
                  (less_left n position full some_left l)
                ∙ ap (λ x. finished (ok (take (suc m - length (take (suc n) ys)) x)))
                    (sym (drop-drop (length (take (suc n) ys)) position full))))

  range_lem :
      (fuel start : ℕ) (last : Option Offset) (s : F.State)
      → r.Stands s start
      → length full < fuel
      → is_negative last ≡ false
      → read_range F sizes fuel start last s
        ≡ finished (
            ok (
              take
                (python_index (length full) (length full) last - min start (length full))
                (drop (min start (length full)) full)))
  unfolding read_range
  range_lem fuel start none s h l n =
      let len = length full in
      let d = length-drop (min start len) full in
      read_to_end_lem fuel start s h (omega arith)
      ∙ ap (λ x. finished (ok x))
          (drop_clip start full ∙ sym (take_all (len - min start len) _ (omega arith)))
  range_lem fuel start (some (at n)) s h l k = elim (Bool-cases (leb n start)) [
    | inl e ↦
        let len = length full in
        let z : min n len - min start len ≡ 0 = ground arith in rw (e, z) refl
    | inr e ↦
        let len = length full in
        let d = length-drop (min start len) full in
        rw e (
          read_limited_lem fuel (n - start) start s h (omega arith)
          ∙ ap (λ x. finished (ok x))
              (ap (take (n - start)) (drop_clip start full)
                ∙ take_clip (n - start) (min n len - min start len) (drop (min start len) full)
                    (ground arith)))
  ]
  range_lem fuel start (some (before n)) s h l k = cc

  whole_lem :
      (fuel : ℕ) (first last : Option Offset) (s : F.State)
      → r.Stands s 0
      → length full < fuel
      → sliced first last (read_to_end F sizes fuel s)
        ≡ finished (
            ok (
              take
                (python_index (length full) (length full) last - python_index (length full) 0 first)
                (drop (python_index (length full) 0 first) full)))
  whole_lem fuel first last s h l =
      ap (sliced first last) (read_to_end_lem fuel 0 s h (omega arith))
      ∙ ap (λ x. finished (ok x)) (slice_materialized_lem full first last)

  -- the range behind a start that is not negative
  from_start :
      (fuel n : ℕ) (last : Option Offset) (s : F.State)
      → r.Stands s 0
      → length full < fuel
      → is_negative last ≡ false
      → cat_open F sizes fuel (some (at n)) last s
        ≡ finished (
            ok (
              take
                (python_index (length full) (length full) last - min n (length full))
                (drop (min n (length full)) full)))
  unfolding cat_open
  from_start fuel n last s h l k = elim (Bool-cases (ltb 0 n)) [
    | inl e ↦
        let (p, h') = r.seeks n 0 s h in
        rw (k, e)
          (ap (λ moved. behind_seek moved (read_range F sizes fuel n last (F.seek_start n s).1)) p
            ∙ range_lem fuel n last (F.seek_start n s).1 h' l k)
    | inr e ↦ let z : n ≡ 0 = ground arith in rw (k, e, z) (range_lem fuel 0 last s h l k)
  ]

  -- Of a file that reads as some bytes, and stands at its start, `cat_file` gives the slice
  -- `bytes[first:last]` of Python, if the fuel is more than the bytes: an index below 0 counts from the
  -- end, and one that is missing or out of range stands for the nearest end.
  pub cat_open-slice :
      (fuel : ℕ) (first last : Option Offset) (s : F.State)
      → r.Stands s 0
      → length full < fuel
      → cat_open F sizes fuel first last s
        ≡ finished (
            ok (
              take
                (python_index (length full) (length full) last - python_index (length full) 0 first)
                (drop (python_index (length full) 0 first) full)))
  unfolding cat_open
  cat_open-slice fuel (some (before n)) last s h l = whole_lem fuel (some (before n)) last s h l
  cat_open-slice fuel none (some (before m)) s h l = whole_lem fuel none (some (before m)) s h l
  cat_open-slice fuel (some (at n)) (some (before m)) s h l =
      whole_lem fuel (some (at n)) (some (before m)) s h l
  cat_open-slice fuel (some (at n)) none s h l = from_start fuel n none s h l refl
  cat_open-slice fuel (some (at n)) (some (at m)) s h l = from_start fuel n (some (at m)) s h l refl
  cat_open-slice fuel none none s h l =
      let e : min 0 (length full) ≡ 0 = omega arith in rw e at (range_lem fuel 0 none s h l refl)
  cat_open-slice fuel none (some (at m)) s h l =
      let e : min 0 (length full) ≡ 0 = omega arith in
      rw e at (range_lem fuel 0 (some (at m)) s h l refl)
