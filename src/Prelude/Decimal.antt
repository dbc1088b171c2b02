-- ===== src/Prelude/Decimal.antt =====
-- Decimal numbers: Rust's `to_string` of an unsigned integer and `parse::<u64>`.
use package.fsspec_db.Prelude.Text.{Text, codes}
use package.fsspec_db.Prelude.{
  ℕ, zero, suc, ◌+◌, ◌-◌, ◌*◌, ◌/◌, ◌%◌, ◌^◌, ◌≤◌, ◌<◌, ◌≡◌, refl, ◌∙◌, Option, none, some, [], ◌∷◌,
  arith, ltb, leb, ◌==◌, ◌&&◌, if◌then◌else◌, Bool-cases, inl, inr,
}

abbrev pub u64_max : ℕ
u64_max = 2 ^ 64 - 1

-- The digits of `n` before `acc`; `fuel` bounds their number, and `n + 1` is enough.
unfoldable pub digits : ℕ → ℕ → Text → Text
digits zero n acc = acc
digits (suc fuel) n acc =
    let more = digits fuel (n / 10) ((b'0' + n % 10) ∷ acc) in
    if ltb n 10 then (b'0' + n % 10) ∷ acc else more

-- `n.to_string()`
unfoldable pub print : ℕ → Text
unfolding digits
print n = digits (n + 1) n []

-- one digit after another, with the overflow check of `checked_mul` and `checked_add`
unfoldable pub scan : Text → ℕ → Option ℕ
scan [] n = some n
scan (c ∷ s) n =
    let next = scan s (n * 10 + (c - b'0')) in
    if leb b'0' c && leb c b'9'
    then (if leb (n * 10 + (c - b'0')) u64_max then next else none)
    else none

abbrev scan_some : Text → Option ℕ
scan_some [] = none
scan_some (c ∷ s) = scan (c ∷ s) 0

-- `s.parse::<u64>()`: a `+` may stand before the digits
unfoldable pub parse_u64 : Text → Option ℕ
unfolding scan
parse_u64 [] = none
parse_u64 (c ∷ s) = if c == b'+' then scan_some s else scan_some (c ∷ s)

print_test : print 18446744073709551615 ≡ codes "18446744073709551615"
unfolding print
print_test = refl

parse_test : (parse_u64 (codes "+07") ≡ some 7) × (parse_u64 (codes "18446744073709551616") ≡ none)
unfolding parse_u64
parse_test = (refl, refl)

scan_last : (n : ℕ) (acc : Text) → n ≤ u64_max → scan ((b'0' + n % 10) ∷ acc) (n / 10) ≡ scan acc n
unfolding scan
scan_last n acc h = ground arith

digits_step :
    (fuel n : ℕ) (acc : Text)
    → digits (suc fuel) n acc
      ≡ (if ltb n 10 then (b'0' + n % 10) ∷ acc else digits fuel (n / 10) ((b'0' + n % 10) ∷ acc))
unfolding digits
digits_step fuel n acc = refl

scan-digits :
    (fuel n : ℕ) (acc : Text) → n < fuel → n ≤ u64_max → scan (digits fuel n acc) 0 ≡ scan acc n
scan-digits zero n acc h k = absurd (omega arith)
scan-digits (suc fuel) n acc h k = elim (Bool-cases (ltb n 10)) [
  | inl e ↦
      let small : n / 10 ≡ 0 = ground arith in
      rw (digits_step fuel n acc, e) (rw small at (scan_last n acc k))
  | inr e ↦
      rw (digits_step fuel n acc, e)
        (scan-digits fuel (n / 10) ((b'0' + n % 10) ∷ acc) (ground arith) (omega arith)
          ∙ scan_last n acc k)
]

-- A digit stands first.
digits_head :
    (fuel n : ℕ) (acc : Text)
    → n < fuel
    → (d : ℕ) × (s : Text) × (digits fuel n acc ≡ (b'0' + d) ∷ s)
digits_head zero n acc h = absurd (omega arith)
digits_head (suc fuel) n acc h = elim (Bool-cases (ltb n 10)) [
  | inl e ↦ (n % 10, acc, rw (digits_step fuel n acc, e))
  | inr e ↦
      let (d, s, p) = digits_head fuel (n / 10) ((b'0' + n % 10) ∷ acc) (ground arith) in
      (d, s, rw (digits_step fuel n acc, e) p)
]

parse_digits : (d : ℕ) (s : Text) → parse_u64 ((b'0' + d) ∷ s) ≡ scan ((b'0' + d) ∷ s) 0
unfolding parse_u64
parse_digits d s = ground arith

scan_nil : (n : ℕ) → scan [] n ≡ some n
unfolding scan
scan_nil n = refl

parse_from_head :
    (t : Text) (n d : ℕ) (s : Text) → t ≡ (b'0' + d) ∷ s → scan t 0 ≡ some n → parse_u64 t ≡ some n
parse_from_head t n d s p e = rw p (parse_digits d s ∙ (rw p at e))

-- A printed `u64` is read back.
pub parse_u64-print : (n : ℕ) → n ≤ u64_max → parse_u64 (print n) ≡ some n
unfolding print
parse_u64-print n h =
    let (d, s, p) = digits_head (n + 1) n [] (omega arith) in
    parse_from_head _ n d s p (scan-digits (n + 1) n [] (omega arith) h ∙ scan_nil n)

scan-le : (s : Text) (n m : ℕ) → n ≤ u64_max → scan s n ≡ some m → m ≤ u64_max
unfolding scan
scan-le [] n m h e = let same : n ≡ m = cc in omega arith
scan-le (c ∷ s) n m h e = elim (Bool-cases (leb b'0' c && leb c b'9')) [
  | inr out ↦ let e' = rw (out, scan) at e in absurd (cc)
  | inl digit ↦ elim (Bool-cases (leb (n * 10 + (c - b'0')) u64_max)) [
    | inr big ↦ let e' = rw (digit, big, scan) at e in absurd (cc)
    | inl small ↦
        let e' = rw (digit, small, scan) at e in scan-le s (n * 10 + (c - b'0')) m (ground arith) e'
  ]
]

-- A number that is read fits 64 bits.
pub parse_u64-le : (s : Text) (n : ℕ) → parse_u64 s ≡ some n → n ≤ u64_max
unfolding parse_u64
parse_u64-le [] n e = absurd (cc)
parse_u64-le (c ∷ []) n e = elim (Bool-cases (c == b'+')) [
  | inl p ↦ let e' = rw p at e in absurd (cc)
  | inr p ↦ let e' = rw p at e in scan-le (c ∷ []) 0 n (omega arith) e'
]
parse_u64-le (c ∷ d ∷ s) n e = elim (Bool-cases (c == b'+')) [
  | inl p ↦ let e' = rw p at e in scan-le (d ∷ s) 0 n (omega arith) e'
  | inr p ↦ let e' = rw p at e in scan-le (c ∷ d ∷ s) 0 n (omega arith) e'
]
