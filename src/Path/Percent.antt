-- ===== src/Path/Percent.antt =====
-- What `percent_decode` undoes: the percent-encoding of Python's `urllib.parse.quote`.
use fsspec_db.Prelude.{
  ℕ, ◌+◌, ◌/◌, ◌%◌, Bool, some, ◌<◌, ◌≡◌, refl, ap, ◌∙◌, ◌&&◌, ◌||◌, List, [], ◌∷◌, ◌++◌, arith,
  ltb, leb, ◌==◌, if◌then◌else◌, Bool-cases, inl, inr, All, All-append, Lacks,
}
use fsspec_db.Prelude.Text.{Text}
use fsspec_db.Prelude.Utf8.{encode_char, encode, IsScalar}
use fsspec_db.Prelude.Utf8.RoundTrip.{encode_char-lt, decode_lossy-encode}
use fsspec_db.Path.Query.{hex_digit, hex_pair, decode_bytes, percent_decode}

-- ASCII is its own encoding.
encode_ascii : (s : Text) → All (λ c. c < 0x80) s → encode s ≡ s
unfolding encode
encode_ascii [] h = refl
encode_ascii (c ∷ s) (h, hs) = ground (arith, encode_ascii s hs)

encode_char-Lacks : (b c : ℕ) → b < 0x80 → ¬ (c ≡ b) → Lacks b (encode_char c)
unfolding encode_char
encode_char-Lacks b c h n = ground arith

encode-Lacks : (b : ℕ) (s : Text) → b < 0x80 → Lacks b s → Lacks b (encode s)
unfolding encode
encode-Lacks b [] h k = tt
encode-Lacks b (c ∷ s) h (k, ks) =
    All-append _ (encode_char c) (encode s) (encode_char-Lacks b c h k) (encode-Lacks b s h ks)

decode_bytes_of_Lacks : (bs : List ℕ) → Lacks b'%' bs → Lacks b'+' bs → decode_bytes bs ≡ bs
unfolding decode_bytes
decode_bytes_of_Lacks [] h k = refl
decode_bytes_of_Lacks (b ∷ []) h k = ground arith
decode_bytes_of_Lacks (b ∷ c ∷ []) h k = ground arith
decode_bytes_of_Lacks (b ∷ c ∷ d ∷ bs) h k =
    ground (arith, decode_bytes_of_Lacks (c ∷ d ∷ bs) h.1 k.1)

-- A component with no `%` and no `+` stands for itself.
pub percent_decode_of_Lacks :
    (s : Text) → All IsScalar s → Lacks b'%' s → Lacks b'+' s → percent_decode s ≡ s
unfolding percent_decode
percent_decode_of_Lacks s u h k =
    rw
      (decode_bytes_of_Lacks (encode s) (encode-Lacks _ s (omega arith) h)
        (encode-Lacks _ s (omega arith) k))
      (decode_lossy-encode s u)

abbrev hex_char : ℕ → ℕ
hex_char d = if ltb d 10 then b'0' + d else 55 + d

abbrev is_unreserved : ℕ → Bool
is_unreserved b =
    leb b'0' b && leb b b'9'
    || leb b'A' b && leb b b'Z'
    || leb b'a' b && leb b b'z'
    || b == b'-'
    || b == b'.'
    || b == b'_'
    || b == b'~'

abbrev quote_byte : ℕ → Text
quote_byte b = if is_unreserved b then b ∷ [] else b'%' ∷ hex_char (b / 16) ∷ hex_char (b % 16) ∷ []

abbrev quote_bytes : List ℕ → Text
quote_bytes [] = []
quote_bytes (b ∷ bs) = quote_byte b ++ quote_bytes bs

-- `urllib.parse.quote(s, safe="")`
abbrev pub quote : Text → Text
quote s = quote_bytes (encode s)

hex_digit-hex_char : (d : ℕ) → d < 16 → hex_digit (hex_char d) ≡ some d
unfolding hex_digit
hex_digit-hex_char d h = ground arith

hex_pair-hex_char : (b : ℕ) → b < 256 → hex_pair (hex_char (b / 16)) (hex_char (b % 16)) ≡ some b
unfolding hex_pair
hex_pair-hex_char b h =
    rw (hex_digit-hex_char (b / 16) (omega arith), hex_pair)
      (rw (hex_digit-hex_char (b % 16) (omega arith)) (ap some (omega arith)))

plain_step :
    (b : ℕ) (rest : List ℕ)
    → ¬ (b ≡ b'%')
    → ¬ (b ≡ b'+')
    → decode_bytes (b ∷ rest) ≡ b ∷ decode_bytes rest
unfolding decode_bytes
plain_step b [] h k = ground arith
plain_step b (c ∷ []) h k = ground arith
plain_step b (c ∷ d ∷ rest) h k = ground arith

escape_step :
    (h l v : ℕ) (rest : List ℕ)
    → hex_pair h l ≡ some v
    → decode_bytes (b'%' ∷ h ∷ l ∷ rest) ≡ v ∷ decode_bytes rest
unfolding decode_bytes
escape_step h l v rest e = rw (e, decode_bytes)

decode_bytes-quote_byte :
    (b : ℕ) (rest : List ℕ) → b < 256 → decode_bytes (quote_byte b ++ rest) ≡ b ∷ decode_bytes rest
decode_bytes-quote_byte b rest h = elim (Bool-cases (is_unreserved b)) [
  | inl e ↦ rw e (plain_step b rest (ground arith) (ground arith))
  | inr e ↦ rw e (escape_step _ _ b rest (hex_pair-hex_char b h))
]

decode_bytes-quote_bytes :
    (bs : List ℕ) → All (λ b. b < 256) bs → decode_bytes (quote_bytes bs) ≡ bs
decode_bytes-quote_bytes [] h = unfold decode_bytes in refl
decode_bytes-quote_bytes (b ∷ bs) (h, hs) =
    decode_bytes-quote_byte b (quote_bytes bs) h ∙ ap (λ r. b ∷ r) (decode_bytes-quote_bytes bs hs)

quote_byte-ascii : (b : ℕ) → b < 256 → All (λ c. c < 0x80) (quote_byte b)
quote_byte-ascii b h = ground arith

quote_bytes-ascii : (bs : List ℕ) → All (λ b. b < 256) bs → All (λ c. c < 0x80) (quote_bytes bs)
quote_bytes-ascii [] h = tt
quote_bytes-ascii (b ∷ bs) (h, hs) =
    All-append _ (quote_byte b) (quote_bytes bs) (quote_byte-ascii b h) (quote_bytes-ascii bs hs)

encode-lt : (s : Text) → All IsScalar s → All (λ b. b < 256) (encode s)
unfolding encode
encode-lt [] h = tt
encode-lt (c ∷ s) (h, hs) =
    All-append _ (encode_char c) (encode s) (encode_char-lt c (ground arith)) (encode-lt s hs)

-- Decoding the percent-encoding of a text of Unicode scalar values gives the text, whatever characters it holds.
pub percent_decode-quote : (s : Text) → All IsScalar s → percent_decode (quote s) ≡ s
unfolding percent_decode
percent_decode-quote s h =
    let bytes = encode-lt s h in
    rw
      (
        encode_ascii (quote s) (quote_bytes-ascii (encode s) bytes),
        decode_bytes-quote_bytes (encode s) bytes,
      )
      (decode_lossy-encode s h)
