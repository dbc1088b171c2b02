-- ===== src/Path/Parts.antt =====
-- rust/src/path.rs: parsing sees the non-empty parts of a path, and nothing else of it.
use fsspec_db.Prelude.{
  ℕ, ◌≡◌, refl, ◌≢◌, false, not, List, [], ◌∷◌, ◌++◌, arith, if◌then◌else◌, is_empty, keep, All,
  Lacks, inl, inr, Bool-cases,
}
use fsspec_db.Prelude.Text.{
  Text, codes, text_eq, text_eq_iff, split, join, trim, trim_start_matches,
}
use fsspec_db.Prelude.Text.Laws.{split-join, keep-split-Lacks}
use fsspec_db.Error.{Result, ok}
use fsspec_db.Path.Defs.{DbPath, root_path}
use fsspec_db.Path.Parse.{normalize_trimmed, normalize_path, parse_parts, parse_clean}

-- A part of a path is not empty and has no `/`.
abbrev pub IsPart : Text → Type 0
IsPart p = (p ≢ []) × Lacks b'/' p

abbrev pub joined : List Text → Text
joined = join (codes "/")

-- The parts behind one another, each behind a slash; with no part, one slash.
abbrev pub absolute : List Text → Text
absolute ps = b'/' ∷ joined ps

abbrev pub non_empty_parts : Text → List Text
non_empty_parts s = keep (λ p. not (is_empty p)) (split b'/' s)

abbrev pub path_parts : Text → List Text
path_parts s = non_empty_parts (trim s)

pub Lacks-self : (n : Text) → n ≢ [] → Lacks b'/' n → (c : ℕ) (r : Text) → n ≡ c ∷ r → c ≢ b'/'
Lacks-self [] h k c r e = absurd (h refl)
Lacks-self (d ∷ n) h k c r e = ground arith

pub Lacks-head :
    (n : Text) (t : Text) → n ≢ [] → Lacks b'/' n → (c : ℕ) (r : Text) → n ++ t ≡ c ∷ r → c ≢ b'/'
Lacks-head [] t h k c r e = absurd (h refl)
Lacks-head (d ∷ n) t h k c r e = ground arith

pub append-ne-nil : (n t : Text) → n ≢ [] → n ++ t ≢ []
append-ne-nil [] t h e = h refl
append-ne-nil (c ∷ n) t h e = cc

pub joined-ne-nil : (n : Text) (ns : List Text) → n ≢ [] → joined (n ∷ ns) ≢ []
unfolding join
joined-ne-nil n [] h e = h e
joined-ne-nil [] (m ∷ ns) h e = h refl
joined-ne-nil (c ∷ n) (m ∷ ns) h e = cc

pub parts-Lacks : (ps : List Text) → All IsPart ps → All (Lacks b'/') ps
parts-Lacks [] h = tt
parts-Lacks (p ∷ ps) (h, hs) = (h.1, parts-Lacks ps hs)

joined_head :
    (p : Text) (ps : List Text)
    → All IsPart (p ∷ ps)
    → (c : ℕ) (r : Text) → joined (p ∷ ps) ≡ c ∷ r
    → c ≢ b'/'
unfolding join
joined_head p [] (h, _) = Lacks-self p h.0 h.1
joined_head p (q ∷ ps) (h, _) = Lacks-head p (absolute (q ∷ ps)) h.0 h.1

trim_start_matches-slash :
    (s : Text)
    → s ≢ []
    → ((c : ℕ) (r : Text) → s ≡ c ∷ r → c ≢ b'/')
    → trim_start_matches b'/' (b'/' ∷ s) ≡ s
unfolding trim_start_matches
trim_start_matches-slash [] n f = refl
trim_start_matches-slash (c ∷ s) n f = ground (arith, f c s refl)

text_eq-nil : (s : Text) → s ≢ [] → text_eq s [] ≡ false
text_eq-nil [] h = absurd (h refl)
text_eq-nil (c ∷ s) h = refl

slash_or : (s : Text) → (if is_empty s then codes "/" else b'/' ∷ s) ≡ b'/' ∷ s
slash_or [] = refl
slash_or (c ∷ s) = refl

slash_case : (t : Text) → t ≡ codes "/" → normalize_trimmed t ≡ absolute (non_empty_parts t)
slash_case t e = rw e (unfold normalize_trimmed join split in refl)

-- The normal form of a trimmed path is its non-empty parts, each behind a slash.
normalize_trimmed_lem : (t : Text) → normalize_trimmed t ≡ absolute (non_empty_parts t)
unfolding normalize_trimmed
normalize_trimmed_lem [] = unfold join split in refl
normalize_trimmed_lem (c ∷ t) = elim (Bool-cases (text_eq (c ∷ t) (codes "/"))) [
  | inl e ↦ slash_case (c ∷ t) ((text_eq_iff (c ∷ t) (codes "/")).0 e)
  | inr e ↦ rw e (slash_or (joined (non_empty_parts (c ∷ t))))
]

-- A normalized path is a slash and then its non-empty parts, with one slash between each two.
pub normalize_path_lem : (s : Text) → normalize_path s ≡ absolute (path_parts s)
unfolding normalize_path
normalize_path_lem s = normalize_trimmed_lem (trim s)

pub path_parts-IsPart : (s : Text) → All IsPart (path_parts s)
path_parts-IsPart s = keep-split-Lacks b'/' (trim s)

-- What a list of parts is read as.
abbrev pub read_parts : Text → List (Text × Text) → List Text → Result DbPath
read_parts path query [] = ok (record root_path { query = query })
read_parts path query (p ∷ ps) = parse_parts path query (p ∷ ps)

read-absolute :
    (path : Text) (query : List (Text × Text)) (ps : List Text)
    → All IsPart ps
    → (if text_eq (absolute ps) (codes "/")
        then ok (record root_path { query = query })
        else parse_parts path query (split b'/' (trim_start_matches b'/' (absolute ps))))
      ≡ read_parts path query ps
read-absolute path query [] h = unfold join in refl
read-absolute path query (p ∷ ps) h =
    let nonempty = joined-ne-nil p ps h.0.0 in
    rw (
      text_eq-nil (joined (p ∷ ps)) nonempty,
      trim_start_matches-slash (joined (p ∷ ps)) nonempty (joined_head p ps h),
      split-join b'/' p ps (parts-Lacks (p ∷ ps) h),
    )

-- Reading a path without its query depends on nothing but its non-empty parts.
pub parse_clean_lem :
    (path s : Text) (query : List (Text × Text))
    → parse_clean path s query ≡ read_parts path query (path_parts s)
unfolding parse_clean
parse_clean_lem path s query =
    rw (normalize_path_lem s, parse_clean)
      (read-absolute path query (path_parts s) (path_parts-IsPart s))
