-- ===== src/Prelude/Utf8.antt =====
-- UTF-8, as Rust's `str::as_bytes` and `String::from_utf8_lossy` have it. The decoder reads one
-- byte at a time; each maximal part of an ill-formed sequence becomes one U+FFFD.
pub mod RoundTrip
use package.fsspec_db.Prelude.Text.{Text}
use package.fsspec_db.Prelude.{
  ℕ, ◌+◌, ◌-◌, ◌*◌, ◌/◌, ◌%◌, ◌≤◌, ◌<◌, ◌≡◌, refl, ◌⊎◌, List, [], ◌∷◌, ◌++◌, ◌&&◌, ltb, leb, ◌==◌,
  if◌then◌else◌,
}

-- one scalar value
unfoldable pub encode_char : ℕ → List ℕ
encode_char c =
    if ltb c 0x80
    then c ∷ []
    else if ltb c 0x800
    then (0xc0 + c / 64) ∷ (0x80 + c % 64) ∷ []
    else if ltb c 0x10000
    then (0xe0 + c / 4096) ∷ (0x80 + c / 64 % 64) ∷ (0x80 + c % 64) ∷ []
    else (0xf0 + c / 262144) ∷ (0x80 + c / 4096 % 64) ∷ (0x80 + c / 64 % 64) ∷ (0x80 + c % 64) ∷ []

-- `s.as_bytes()`
unfoldable pub encode : Text → List ℕ
unfolding encode_char
encode [] = []
encode (c ∷ s) = encode_char c ++ encode s

-- Between characters, or inside one: how many bytes are missing, the range of the next, and the
-- bits so far.
pub data Pending : Type 0 where
  idle : Pending
  more : ℕ → ℕ → ℕ → ℕ → Pending

abbrev pub replacement : ℕ
replacement = 0xfffd

unfoldable pub lead : ℕ → List ℕ × Pending
lead b =
    if ltb b 0x80
    then (b ∷ [], idle)
    else if leb 0xc2 b && leb b 0xdf
    then ([], more 1 0x80 0xbf (b - 0xc0))
    else if b == 0xe0
    then ([], more 2 0xa0 0xbf 0)
    else if b == 0xed
    then ([], more 2 0x80 0x9f 0xd)
    else if leb 0xe1 b && leb b 0xef
    then ([], more 2 0x80 0xbf (b - 0xe0))
    else if b == 0xf0
    then ([], more 3 0x90 0xbf 0)
    else if leb 0xf1 b && leb b 0xf3
    then ([], more 3 0x80 0xbf (b - 0xf0))
    else if b == 0xf4
    then ([], more 3 0x80 0x8f 4)
    else (replacement ∷ [], idle)

abbrev after_bad : List ℕ × Pending → List ℕ × Pending
after_bad (out, p) = (replacement ∷ out, p)

unfoldable pub feed : Pending → ℕ → List ℕ × Pending
unfolding lead
feed idle b = lead b
feed (more k lo hi acc) b =
    if leb lo b && leb b hi
    then (if k == 1
        then ((acc * 64 + (b - 0x80)) ∷ [], idle)
        else ([], more (k - 1) 0x80 0xbf (acc * 64 + (b - 0x80))))
    else after_bad (lead b)

abbrev flush : Pending → Text
flush idle = []
flush (more k lo hi acc) = replacement ∷ []

unfoldable pub decode_from : Pending → List ℕ → Text
unfolding feed
decode_from p [] = flush p
decode_from p (b ∷ bs) = (feed p b).0 ++ decode_from (feed p b).1 bs

-- `String::from_utf8_lossy(bytes)`
unfoldable pub decode_lossy : List ℕ → Text
unfolding decode_from
decode_lossy = decode_from idle

-- A `char`: a code point that is no surrogate.
abbrev pub IsScalar : ℕ → Type 0
IsScalar c = (c < 0xd800) ⊎ ((0xe000 ≤ c) × (c < 0x110000))

lossy_test :
    decode_lossy (0x61 ∷ 0xe2 ∷ 0x82 ∷ 0x62 ∷ 0xff ∷ 0xc3 ∷ [])
    ≡ 0x61 ∷ 0xfffd ∷ 0x62 ∷ 0xfffd ∷ 0xfffd ∷ []
unfolding decode_lossy
lossy_test = refl
