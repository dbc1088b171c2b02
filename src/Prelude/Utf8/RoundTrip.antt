-- ===== src/Prelude/Utf8/RoundTrip.antt =====
-- Decoding what was encoded.
use package.fsspec_db.Prelude.Text.{Text}
use package.fsspec_db.Prelude.Utf8.{encode_char, encode, idle, decode_from, decode_lossy, IsScalar}
use package.fsspec_db.Prelude.{ℕ, ◌<◌, ◌≡◌, refl, List, [], ◌∷◌, ◌++◌, All, arith}

pub decode_from-encode_char :
    (c : ℕ) (rest : List ℕ)
    → IsScalar c
    → decode_from idle (encode_char c ++ rest) ≡ c ∷ decode_from idle rest
unfolding encode_char decode_from
decode_from-encode_char c rest h = ground arith

decode_from-encode : (s : Text) → All IsScalar s → decode_from idle (encode s) ≡ s
unfolding encode
decode_from-encode [] h = unfold decode_from in refl
decode_from-encode (c ∷ s) (h, hs) =
    rw (decode_from-encode_char c (encode s) h) (rw (decode_from-encode s hs))

-- Decoding the bytes of a text gives the text.
pub decode_lossy-encode : (s : Text) → All IsScalar s → decode_lossy (encode s) ≡ s
unfolding decode_lossy
decode_lossy-encode s h = decode_from-encode s h

-- The bytes of a character are bytes.
pub encode_char-lt : (c : ℕ) → c < 0x110000 → All (λ b. b < 256) (encode_char c)
unfolding encode_char
encode_char-lt c h = ground arith
