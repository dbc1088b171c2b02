-- ===== src/Sql/Placeholders.antt =====
-- The placeholders of an INSERT: one for each value, numbered from one in the order of the rows.
use fsspec_db.Prelude.{
  ℕ, zero, suc, ◌+◌, ◌*◌, ◌≡◌, refl, ap, ◌∙◌, List, [], ◌∷◌, ◌++◌, map, arith, length, All,
}
use fsspec_db.Types.{Dialect}
use fsspec_db.Sql.Statements.{placeholder, row_placeholders, all_placeholders}

-- `n` numbers from `i` on
abbrev pub range_from : ℕ → ℕ → List ℕ
range_from i zero = []
range_from i (suc n) = i ∷ range_from (i + 1) n

range_from-append : (i n m : ℕ) → range_from i (n + m) ≡ range_from i n ++ range_from (i + n) m
range_from-append i zero m =
    let a : 0 + m ≡ m = omega arith in let b : i + 0 ≡ i = omega arith in rw (a, b)
range_from-append i (suc n) m =
    let a : suc n + m ≡ suc (n + m) = omega arith in
    let b : i + suc n ≡ i + 1 + n = omega arith in
    rw (a, b) (ap (λ r. i ∷ r) (range_from-append (i + 1) n m))

abbrev pub concat {ℓ} : {A : Type ℓ} → List (List A) → List A
concat [] = []
concat (xs ∷ xss) = xs ++ concat xss

module _ (d : Dialect) where
  row_lem :
      (n i : ℕ)
      → ((row_placeholders d n i).0 ≡ map (placeholder d) (range_from i n))
        × ((row_placeholders d n i).1 ≡ i + n)
  unfolding row_placeholders
  row_lem zero i = (refl, omega arith)
  row_lem (suc n) i =
      let (p, q) = row_lem n (i + 1) in (ap (λ r. placeholder d i ∷ r) p, q ∙ omega arith)

  pub length-map_range : (n i : ℕ) → length (map (placeholder d) (range_from i n)) ≡ n
  length-map_range zero i = refl
  length-map_range (suc n) i = ap suc (length-map_range n (i + 1))

  map-append_lem :
      (is js : List ℕ)
      → map (placeholder d) (is ++ js) ≡ map (placeholder d) is ++ map (placeholder d) js
  map-append_lem [] js = refl
  map-append_lem (i ∷ is) js = ap (λ r. placeholder d i ∷ r) (map-append_lem is js)

  numbered :
      (rows cols i : ℕ)
      → concat (all_placeholders d rows cols i) ≡ map (placeholder d) (range_from i (rows * cols))
  unfolding all_placeholders
  numbered zero cols i = let e : 0 * cols ≡ 0 = omega arith in rw e
  numbered (suc rows) cols i =
      let (p, q) = row_lem cols i in
      let e : suc rows * cols ≡ cols + rows * cols = omega arith in
      rw (p, q, e, range_from-append i cols (rows * cols), map-append_lem)
        (ap (λ r. map (placeholder d) (range_from i cols) ++ r) (numbered rows cols (i + cols)))

  rows_lem :
      (rows cols i : ℕ)
      → (length (all_placeholders d rows cols i) ≡ rows)
        × All (λ row. length row ≡ cols) (all_placeholders d rows cols i)
  unfolding all_placeholders
  rows_lem zero cols i = (refl, tt)
  rows_lem (suc rows) cols i =
      let (p, q) = row_lem cols i in
      let (n, h) = rows_lem rows cols (row_placeholders d cols i).1 in
      (ap suc n, (ap length p ∙ length-map_range cols i, h))

  -- An INSERT of so many rows has as many groups of placeholders, each of one placeholder for each
  -- column, and all of them together are numbered from 1 on without a gap.
  pub all_placeholders_lem :
      (rows cols : ℕ)
      → (length (all_placeholders d rows cols 1) ≡ rows)
        × All (λ row. length row ≡ cols) (all_placeholders d rows cols 1)
        × (concat (all_placeholders d rows cols 1)
            ≡ map (placeholder d) (range_from 1 (rows * cols)))
  all_placeholders_lem rows cols = let (n, h) = rows_lem rows cols 1 in (n, h, numbered rows cols 1)
