-- ===== src/Prelude/Int.antt =====
-- The signed integers of Rust, the conversions between them and the unsigned ones, and their text.
use package.fsspec_db.Prelude.Decimal.{print}
use package.fsspec_db.Prelude.Text.{Text}
use package.fsspec_db.Prelude.{
  ℕ, zero, suc, ◌-◌, ◌%◌, ◌^◌, ◌≡◌, refl, Bool, true, false, not, Option, none, some, [], ◌∷◌, leb,
  ◌==◌, if◌then◌else◌,
}

-- `negsuc n` is -1 - n
pub data ℤ : Type 0 where
  pos negsuc : ℕ → ℤ

abbrev pub is_zero : ℤ → Bool
is_zero (pos n) = n == 0
is_zero (negsuc n) = false

abbrev pub is_positive : ℤ → Bool
is_positive (pos n) = not (n == 0)
is_positive (negsuc n) = false

-- `n.to_string()`
unfoldable pub print_int : ℤ → Text
print_int (pos n) = print n
print_int (negsuc n) = b'-' ∷ print (suc n)

-- `n as u32`, `n as u64`: the two's complement of `w` bits
unfoldable pub as_unsigned : ℕ → ℤ → ℕ
as_unsigned w (pos n) = n % 2 ^ w
as_unsigned w (negsuc n) = 2 ^ w - 1 - n % 2 ^ w

-- `n + 1`
abbrev pub succ : ℤ → ℤ
succ (pos n) = pos (suc n)
succ (negsuc zero) = pos 0
succ (negsuc (suc n)) = negsuc n

-- `u64::try_from(n).ok()`
abbrev pub to_unsigned : ℤ → Option ℕ
to_unsigned (pos n) = some n
to_unsigned (negsuc n) = none

-- `i64::try_from(n)` of an unsigned number
unfoldable pub i64_try_from : ℕ → Option ℤ
i64_try_from n = if leb n 9223372036854775807 then some (pos n) else none

-- `a <= b`
abbrev pub int_leb : ℤ → ℤ → Bool
int_leb (pos m) (pos n) = leb m n
int_leb (pos m) (negsuc n) = false
int_leb (negsuc m) (pos n) = true
int_leb (negsuc m) (negsuc n) = leb n m

int_test : print_int (negsuc 11) ≡ b'-' ∷ b'1' ∷ b'2' ∷ []
unfolding print_int print
int_test = refl
