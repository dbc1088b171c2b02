-- ===== src/Prelude/Text.antt =====
-- Rust's `str` and `String` as lists of Unicode scalar values, and the methods of `str` that the
-- crate calls: `split`, `split_once`, `rsplit_once`, `trim`, `contains`, `replace`, `join`,
-- `to_ascii_lowercase`.
pub mod Laws
use Prim.Native.Char.{code}
use Prim.Native.String.{String}
use mathlib.Core.Option
use package.fsspec_db.Prelude.{
  ℕ, ◌+◌, ◌-◌, ◌≡◌, refl, ◌↔◌, Bool, true, false, ◌&&◌, ◌||◌, Option, none, some, List, [], ◌∷◌,
  ◌++◌, map, arith, leb, ◌==◌, if◌then◌else◌, is_empty, is_some,
}

abbrev pub Text : Type 0
Text = List ℕ

abbrev pub codes : String → Text
codes String.[] = []
codes (String.◌∷◌ c s) = code c ∷ codes s

-- `a == b`
abbrev pub text_eq : Text → Text → Bool
text_eq [] [] = true
text_eq [] (d ∷ t) = false
text_eq (c ∷ s) [] = false
text_eq (c ∷ s) (d ∷ t) = c == d && text_eq s t

pub text_eq_iff : (s t : Text) → (text_eq s t ≡ true) ↔ (s ≡ t)
text_eq_iff [] [] = ground arith
text_eq_iff [] (d ∷ t) = ground arith
text_eq_iff (c ∷ s) [] = ground arith
text_eq_iff (c ∷ s) (d ∷ t) = ground (arith, text_eq_iff s t)

abbrev push_head : ℕ → List Text → List Text
push_head c [] = (c ∷ []) ∷ []
push_head c (p ∷ ps) = (c ∷ p) ∷ ps

-- `s.split(sep)` for one character; there is always at least one part
unfoldable pub split : ℕ → Text → List Text
split sep [] = [] ∷ []
split sep (c ∷ s) = let rest = split sep s in if c == sep then [] ∷ rest else push_head c rest

-- `parts.join(sep)`
unfoldable pub join : Text → List Text → Text
join sep [] = []
join sep (p ∷ []) = p
join sep (p ∷ q ∷ ps) = p ++ (sep ++ join sep (q ∷ ps))

-- `s.strip_prefix(pat)`
unfoldable pub strip_prefix : Text → Text → Option Text
strip_prefix [] s = some s
strip_prefix (p ∷ pat) [] = none
strip_prefix (p ∷ pat) (c ∷ s) = if p == c then strip_prefix pat s else none

abbrev push_first : ℕ → Text × Text → Text × Text
push_first c (a, b) = (c ∷ a, b)

-- `s.split_once(pat)`: around the first place where `pat` stands
unfoldable pub split_once : Text → Text → Option (Text × Text)
unfolding strip_prefix
split_once pat [] = Option.map (λ r. ([], r)) (strip_prefix pat [])
split_once pat (c ∷ s) = elim (strip_prefix pat (c ∷ s)) [
  | some r ↦ some ([], r)
  | none ↦ Option.map (push_first c) (split_once pat s)
]

-- `s.rsplit_once(sep)` for one character: around its last place
unfoldable pub rsplit_once : ℕ → Text → Option (Text × Text)
rsplit_once sep [] = none
rsplit_once sep (c ∷ s) = elim (rsplit_once sep s) [
  | some (a, b) ↦ some (c ∷ a, b)
  | none ↦ if c == sep then some ([], s) else none
]

-- `s.contains(pat)`
unfoldable pub contains : Text → Text → Bool
unfolding split_once
contains pat s = is_some (split_once pat s)

-- `char::is_whitespace`: the characters with the property White_Space
unfoldable pub is_whitespace : ℕ → Bool
is_whitespace c =
    leb 0x9 c && leb c 0xd
    || c == 0x20
    || c == 0x85
    || c == 0xa0
    || c == 0x1680
    || leb 0x2000 c && leb c 0x200a
    || c == 0x2028
    || c == 0x2029
    || c == 0x202f
    || c == 0x205f
    || c == 0x3000

unfoldable pub trim_start : Text → Text
unfolding is_whitespace
trim_start [] = []
trim_start (c ∷ s) = if is_whitespace c then trim_start s else c ∷ s

unfoldable pub trim_end : Text → Text
unfolding is_whitespace
trim_end [] = []
trim_end (c ∷ s) = let r = trim_end s in if is_whitespace c && is_empty r then [] else c ∷ r

-- `s.trim()`
unfoldable pub trim : Text → Text
unfolding trim_start trim_end
trim s = trim_end (trim_start s)

-- `s.trim_start_matches(c)` for one character
unfoldable pub trim_start_matches : ℕ → Text → Text
trim_start_matches c [] = []
trim_start_matches c (d ∷ s) = if d == c then trim_start_matches c s else d ∷ s

unfoldable pub trim_end_by : (ℕ → Bool) → Text → Text
trim_end_by p [] = []
trim_end_by p (c ∷ s) = let r = trim_end_by p s in if p c && is_empty r then [] else c ∷ r

unfoldable pub trim_start_by : (ℕ → Bool) → Text → Text
trim_start_by p [] = []
trim_start_by p (c ∷ s) = if p c then trim_start_by p s else c ∷ s

-- `s.trim_matches(p)`
unfoldable pub trim_matches : (ℕ → Bool) → Text → Text
unfolding trim_end_by trim_start_by
trim_matches p s = trim_end_by p (trim_start_by p s)

-- `list.contains(&s)`
unfoldable pub member : Text → List Text → Bool
member s [] = false
member s (t ∷ ts) = text_eq s t || member s ts

-- `s.replace(c, with)` for one character
unfoldable pub replace : ℕ → Text → Text → Text
replace c with [] = []
replace c with (d ∷ s) = let rest = replace c with s in if d == c then with ++ rest else d ∷ rest

unfoldable pub lower_char : ℕ → ℕ
lower_char c = if leb b'A' c && leb c b'Z' then c + 32 else c

-- `s.to_ascii_lowercase()`
unfoldable pub to_ascii_lowercase : Text → Text
unfolding lower_char
to_ascii_lowercase = map lower_char

-- `s.to_ascii_uppercase()`
unfoldable pub to_ascii_uppercase : Text → Text
to_ascii_uppercase = map (λ c. if leb b'a' c && leb c b'z' then c - 32 else c)

split_test : split b'/' (codes "a//b") ≡ codes "a" ∷ [] ∷ codes "b" ∷ []
unfolding split
split_test = refl

split_once_test : split_once (codes "://") (codes "db://x") ≡ some (codes "db", codes "x")
unfolding split_once
split_once_test = refl

rsplit_once_test : rsplit_once b'.' (codes "a.b.c") ≡ some (codes "a.b", codes "c")
unfolding rsplit_once
rsplit_once_test = refl

trim_test : trim (codes " a b  ") ≡ codes "a b"
unfolding trim
trim_test = refl
