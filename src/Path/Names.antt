-- ===== src/Path/Names.antt =====
-- Which names a path can carry, and how a path made of such names is read.
use fsspec_db.Prelude.{
  ℕ, ◌≡◌, refl, ap, ◌≢◌, ◌∙◌, not, List, [], ◌∷◌, ◌++◌, arith, is_empty, keep, All, All-append,
  Lacks,
}
use fsspec_db.Prelude.Text.{Text, split, join, trim, is_whitespace}
use fsspec_db.Prelude.Text.Laws.{
  EndsSolid, NoDouble, split-join, split-append, trim_of_EndsSolid, EndsSolid-append,
}
use fsspec_db.Path.Parse.{parse_parts, parse_clean}
use fsspec_db.Path.Parts.{
  IsPart, joined, absolute, path_parts, read_parts, parse_clean_lem, joined-ne-nil, append-ne-nil,
  parts-Lacks, Lacks-self, Lacks-head,
}

-- A part of a path: not empty, without `/` and `?`, and not ending in whitespace.
abbrev pub IsName : Text → Type 0
IsName n = (n ≢ []) × Lacks b'/' n × Lacks b'?' n × EndsSolid n

joined-EndsSolid : (n : Text) (ns : List Text) → All IsName (n ∷ ns) → EndsSolid (joined (n ∷ ns))
unfolding join
joined-EndsSolid n [] ((_, _, _, h), _) = h
joined-EndsSolid n (m ∷ ns) (_, hs) =
    EndsSolid-append n (b'/' ∷ joined (m ∷ ns)) (λ e. cc)
      (EndsSolid-append (b'/' ∷ []) (joined (m ∷ ns)) (joined-ne-nil m ns hs.0.0)
        (joined-EndsSolid m ns hs))

-- A slash, then the names.
NoDouble-slash :
    (s : Text)
    → s ≢ []
    → ((c : ℕ) (r : Text) → s ≡ c ∷ r → c ≢ b'/')
    → NoDouble s
    → NoDouble (b'/' ∷ s)
NoDouble-slash [] n f h = absurd (n refl)
NoDouble-slash (c ∷ s) n f h = ((λ _. f c s refl), h)

NoDouble-name : (n t : Text) → Lacks b'/' n → NoDouble t → NoDouble (n ++ t)
NoDouble-name [] t h k = k
NoDouble-name (c ∷ []) [] h k = tt
NoDouble-name (c ∷ []) (d ∷ t) h k = ((λ e. absurd (h.0 e)), k)
NoDouble-name (c ∷ d ∷ n) t h k = ((λ e. absurd (h.0 e)), NoDouble-name (d ∷ n) t h.1 k)

NoDouble-Lacks : (n : Text) → Lacks b'/' n → NoDouble n
NoDouble-Lacks [] h = tt
NoDouble-Lacks (c ∷ []) h = tt
NoDouble-Lacks (c ∷ d ∷ n) h = ((λ e. absurd (h.0 e)), NoDouble-Lacks (d ∷ n) h.1)

pub absolute-NoDouble :
    (n : Text) (ns : List Text) → All IsName (n ∷ ns) → NoDouble (absolute (n ∷ ns))
unfolding join
absolute-NoDouble n [] ((h, k, _, _), _) =
    NoDouble-slash n h (Lacks-self n h k) (NoDouble-Lacks n k)
absolute-NoDouble n (m ∷ ns) (h, hs) =
    NoDouble-slash (n ++ absolute (m ∷ ns)) (append-ne-nil n (absolute (m ∷ ns)) h.0)
      (Lacks-head n (absolute (m ∷ ns)) h.0 h.1)
      (NoDouble-name n (absolute (m ∷ ns)) h.1 (absolute-NoDouble m ns hs))

pub joined-Lacks : (n : Text) (ns : List Text) → All IsName (n ∷ ns) → Lacks b'?' (joined (n ∷ ns))
unfolding join
joined-Lacks n [] ((_, _, h, _), _) = h
joined-Lacks n (m ∷ ns) ((_, _, h, _), hs) =
    All-append _ n (b'/' ∷ joined (m ∷ ns)) h (omega arith, joined-Lacks m ns hs)

names-IsPart : (ns : List Text) → All IsName ns → All IsPart ns
names-IsPart [] h = tt
names-IsPart (n ∷ ns) (h, hs) = ((h.0, h.1), names-IsPart ns hs)

keep_names : (ns : List Text) → All IsName ns → keep (λ p. not (is_empty p)) ns ≡ ns
keep_names [] h = refl
keep_names ([] ∷ ns) (h, hs) = absurd (h.0 refl)
keep_names ((c ∷ n) ∷ ns) (h, hs) = ap (λ r. (c ∷ n) ∷ r) (keep_names ns hs)

absolute-EndsSolid :
    (n : Text) (ns : List Text) → All IsName (n ∷ ns) → EndsSolid (absolute (n ∷ ns))
absolute-EndsSolid n ns h =
    EndsSolid-append (b'/' ∷ []) (joined (n ∷ ns)) (joined-ne-nil n ns h.0.0)
      (joined-EndsSolid n ns h)

trim-absolute :
    (n : Text) (ns : List Text) → All IsName (n ∷ ns) → trim (absolute (n ∷ ns)) ≡ absolute (n ∷ ns)
trim-absolute n ns h =
    trim_of_EndsSolid b'/' (joined (n ∷ ns)) (unfold is_whitespace in refl)
      (absolute-EndsSolid n ns h)

split-absolute :
    (n : Text) (ns : List Text) → All IsName (n ∷ ns) → split b'/' (absolute (n ∷ ns)) ≡ [] ∷ n ∷ ns
split-absolute n ns h =
    split-append b'/' [] (joined (n ∷ ns)) tt
    ∙ ap (λ r. [] ∷ r) (split-join b'/' n ns (parts-Lacks (n ∷ ns) (names-IsPart (n ∷ ns) h)))

-- The parts of a path of names are the names.
pub path_parts-absolute :
    (n : Text) (ns : List Text) → All IsName (n ∷ ns) → path_parts (absolute (n ∷ ns)) ≡ n ∷ ns
path_parts-absolute n ns h =
    rw (trim-absolute n ns h) (rw (split-absolute n ns h) (keep_names (n ∷ ns) h))

pub parse_clean-absolute :
    (path : Text) (query : List (Text × Text)) (n : Text) (ns : List Text)
    → All IsName (n ∷ ns)
    → parse_clean path (absolute (n ∷ ns)) query ≡ parse_parts path query (n ∷ ns)
parse_clean-absolute path query n ns h =
    parse_clean_lem path (absolute (n ∷ ns)) query
    ∙ ap (read_parts path query) (path_parts-absolute n ns h)
