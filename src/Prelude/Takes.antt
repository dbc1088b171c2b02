-- ===== src/Prelude/Takes.antt =====
-- What `take` and `drop` leave, and lists that are clipped at their end.
use Prim.Native.Nat.{ℕ, zero, suc, ◌-◌, ◌≤◌, ◌<◌, min}
use mathlib.Core.Path.{◌≡◌, refl, sym, ap}
use mathlib.Core.Logic.{◌≢◌}
use mathlib.Core.List.{List, [], ◌∷◌, ◌++◌}
use native.Mathlib.Omega.{arith}
use package.fsspec_db.Prelude.Lists.{length, take, drop, drop-nil}

module _ {ℓ} {A : Type ℓ} where
  -- a front that is read, and what is left
  pub front-rest : (n : ℕ) (ys : List A) → take n ys ++ drop (length (take n ys)) ys ≡ ys
  front-rest zero ys = refl
  front-rest (suc n) [] = refl
  front-rest (suc n) (y ∷ ys) = ap (λ l. y ∷ l) (front-rest n ys)

  pub front-take :
      (n m : ℕ) (ys : List A)
      → n ≤ m
      → take n ys ++ take (m - length (take n ys)) (drop (length (take n ys)) ys) ≡ take m ys
  front-take zero m ys h = let e : m - 0 ≡ m = omega arith in rw e refl
  front-take (suc n) zero ys h = absurd (omega arith)
  front-take (suc n) (suc m) [] h = let e : suc m - 0 ≡ suc m = omega arith in rw e refl
  front-take (suc n) (suc m) (y ∷ ys) h =
      let e : suc m - suc (length (take n ys)) ≡ m - length (take n ys) = omega arith in
      rw e (ap (λ l. y ∷ l) (front-take n m ys (omega arith)))

  pub some_length : (ys : List A) → ys ≢ [] → 0 < length ys
  some_length [] h = absurd (h refl)
  some_length (y ∷ ys) h = omega arith

  pub take_clip :
      (a b : ℕ) (ys : List A) → min a (length ys) ≡ min b (length ys) → take a ys ≡ take b ys
  take_clip zero zero ys h = refl
  take_clip zero (suc b) [] h = refl
  take_clip zero (suc b) (y ∷ ys) h = absurd (omega arith)
  take_clip (suc a) zero [] h = refl
  take_clip (suc a) zero (y ∷ ys) h = absurd (omega arith)
  take_clip (suc a) (suc b) [] h = refl
  take_clip (suc a) (suc b) (y ∷ ys) h = ap (λ l. y ∷ l) (take_clip a b ys (omega arith))

  pub drop_clip : (n : ℕ) (xs : List A) → drop n xs ≡ drop (min n (length xs)) xs
  drop_clip zero xs = let e : min 0 (length xs) ≡ 0 = omega arith in rw e refl
  drop_clip (suc n) [] = sym (drop-nil (min (suc n) 0))
  drop_clip (suc n) (x ∷ xs) =
      let e : min (suc n) (suc (length xs)) ≡ suc (min n (length xs)) = omega arith in
      rw e (drop_clip n xs)
