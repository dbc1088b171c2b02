-- ===== src/Path/Query.antt =====
-- rust/src/path.rs: the protocol prefix and the query of a path.
use mathlib.Core.Option
use fsspec_db.Prelude.{
  ℕ, ◌+◌, ◌-◌, ◌*◌, not, ◌&&◌, Option, none, some, List, [], ◌∷◌, map, leb, ◌==◌, if◌then◌else◌,
  is_empty, keep,
}
use fsspec_db.Prelude.Text.{Text, codes, split, split_once}
use fsspec_db.Prelude.Utf8

unfoldable pub strip_protocol : Text → Text
strip_protocol path = elim (split_once (codes "://") path) [ some (_, rest) ↦ rest | none ↦ path ]

-- `char::to_digit(16)`
unfoldable pub hex_digit : ℕ → Option ℕ
hex_digit c =
    if leb b'0' c && leb c b'9'
    then some (c - b'0')
    else if leb b'a' c && leb c b'f'
    then some (c - b'a' + 10)
    else if leb b'A' c && leb c b'F'
    then some (c - b'A' + 10)
    else none

unfoldable pub hex_pair : ℕ → ℕ → Option ℕ
unfolding hex_digit
hex_pair h l = elim (hex_digit h) [
  | none ↦ none
  | some hi ↦ Option.map (λ lo. hi * 16 + lo) (hex_digit l)
]

abbrev plus_to_space : ℕ → ℕ
plus_to_space b = if b == b'+' then b' ' else b

-- The loop of `percent_decode`, over the bytes from index `i` on.
unfoldable pub decode_bytes : List ℕ → List ℕ
unfolding hex_pair
decode_bytes [] = []
decode_bytes (b ∷ []) = plus_to_space b ∷ []
decode_bytes (b ∷ h ∷ []) = plus_to_space b ∷ plus_to_space h ∷ []
decode_bytes (b ∷ h ∷ l ∷ rest) =
    let next = decode_bytes (h ∷ l ∷ rest) in
    let after = decode_bytes rest in
    if b == b'+'
    then b' ' ∷ next
    else if b == b'%'
    then elim (hex_pair h l) [ some v ↦ v ∷ after | none ↦ b'%' ∷ next ]
    else b ∷ next

unfoldable pub percent_decode : Text → Text
percent_decode input = Utf8.decode_lossy (decode_bytes (Utf8.encode input))

-- one part of the query, between two `&`
unfoldable pub query_pair : Text → Text × Text
query_pair part = elim (split_once (codes "=") part) [
  | some (key, value) ↦ (percent_decode key, percent_decode value)
  | none ↦ (percent_decode part, [])
]

unfoldable pub split_query : Text → Text × List (Text × Text)
split_query path = elim (split_once (codes "?") path) [
  | none ↦ (path, [])
  | some (path_part, query_part) ↦
      (path_part, map query_pair (keep (λ part. not (is_empty part)) (split b'&' query_part)))
]
