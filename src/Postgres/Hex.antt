-- ===== src/Postgres/Hex.antt =====
-- The text of a bytea gives its bytes back.
use fsspec_db.Prelude.{
  ℕ, ◌+◌, ◌*◌, ◌/◌, ◌%◌, ◌<◌, ◌≡◌, refl, ap, ◌∙◌, Option, none, some, [], ◌∷◌, All, arith,
}
use fsspec_db.Prelude.Text.{Text, codes, strip_prefix}
use fsspec_db.Stream.Codec.{Bytes}
use fsspec_db.Path.Query.{hex_digit}
use fsspec_db.Postgres.Copy.{hex_char, hex_digits, postgres_bytea_hex}

-- The bytes of hexadecimal digits, two for each byte.
abbrev pub read_digits : Text → Option Bytes
read_digits [] = some []
read_digits (h ∷ []) = none
read_digits (h ∷ l ∷ rest) = elim (hex_digit h) [
  | none ↦ none
  | some hi ↦ elim (hex_digit l) [
    | none ↦ none
    | some lo ↦ elim (read_digits rest) [ none ↦ none | some bytes ↦ some ((hi * 16 + lo) ∷ bytes) ]
  ]
]

-- How Postgres reads a bytea in its hex format.
abbrev pub read_bytea : Text → Option Bytes
read_bytea text = elim (strip_prefix (codes "\\x") text) [
  | none ↦ none
  | some digits ↦ read_digits digits
]

hex_digit-hex_char : (n : ℕ) → n < 16 → hex_digit (hex_char n) ≡ some n
unfolding hex_digit hex_char
hex_digit-hex_char n h = ground arith

read_step :
    (h l hi lo : ℕ) (rest : Text) (bytes : Bytes)
    → hex_digit h ≡ some hi
    → hex_digit l ≡ some lo
    → read_digits rest ≡ some bytes
    → read_digits (h ∷ l ∷ rest) ≡ some ((hi * 16 + lo) ∷ bytes)
read_step h l hi lo rest bytes p q r = ground (arith, p, q, r)

hex_digits_lem :
    (bytes : Bytes) → All (λ b. b < 256) bytes → read_digits (hex_digits bytes) ≡ some bytes
unfolding hex_digits
hex_digits_lem [] h = refl
hex_digits_lem (b ∷ bytes) (h, hs) =
    let whole : b / 16 * 16 + b % 16 ≡ b = omega arith in
    read_step (hex_char (b / 16)) (hex_char (b % 16)) (b / 16) (b % 16) (hex_digits bytes) bytes
      (hex_digit-hex_char (b / 16) (omega arith)) (hex_digit-hex_char (b % 16) (omega arith))
      (hex_digits_lem bytes hs)
    ∙ ap (λ c. some (c ∷ bytes)) whole

-- The text that is copied for bytes is read back by Postgres's hex format as those bytes.
pub read_bytea-postgres_bytea_hex :
    (bytes : Bytes) → All (λ b. b < 256) bytes → read_bytea (postgres_bytea_hex bytes) ≡ some bytes
unfolding postgres_bytea_hex strip_prefix
read_bytea-postgres_bytea_hex bytes h = hex_digits_lem bytes h
