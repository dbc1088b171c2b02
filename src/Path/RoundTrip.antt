-- ===== src/Path/RoundTrip.antt =====
-- Parsing a path that was printed.
use fsspec_db.Prelude.{
  ◌≡◌, refl, ap, ap₂, ◌∙◌, inl, inr, false, not, Option, List, [], ◌∷◌, ◌++◌, map, arith, All,
  All-append, Lacks, is_empty, keep,
}
use fsspec_db.Prelude.Text.{Text, codes, split, join, strip_prefix, trim}
use fsspec_db.Prelude.Text.Laws.{
  NoScheme, NoDouble-NoScheme, NoScheme-append, split_once_of_NoScheme, split_once_of_Lacks,
  split_once-append, split-join,
}
use fsspec_db.Prelude.Utf8.{IsScalar}
use fsspec_db.Error.{ok}
use fsspec_db.Path.Defs.{DbPathKind, DbPath}
use fsspec_db.Path.Query.{strip_protocol, query_pair, split_query}
use fsspec_db.Path.Parse.{normalize_path, normalize_trimmed, parse_clean, parse}
use fsspec_db.Path.Print.{base_path, print_pair, to_path}
use fsspec_db.Path.Parts.{absolute}
use fsspec_db.Path.Names.{absolute-NoDouble, joined-Lacks, parse_clean-absolute}
use fsspec_db.Path.Spelling.{IsPrintable, at_root, spelling}
use fsspec_db.Path.Percent.{percent_decode_of_Lacks}

-- A query component that stands for itself.
abbrev pub IsPlain : Text → Type 0
IsPlain s = All IsScalar s × Lacks b'&' s × Lacks b'%' s × Lacks b'+' s

abbrev pub PlainPair : Text × Text → Type 0
PlainPair (k, v) = IsPlain k × Lacks b'=' k × IsPlain v

query_pair-print_pair : (q : Text × Text) → PlainPair q → query_pair (print_pair q) ≡ q
unfolding print_pair query_pair
query_pair-print_pair (k, v) ((u, _, h, p), e, (u', _, h', p')) =
    rw (split_once-append b'=' k v e, query_pair)
      (ap₂ (λ a b. (a, b)) (percent_decode_of_Lacks k u h p) (percent_decode_of_Lacks v u' h' p'))

print_pair-Lacks : (q : Text × Text) → PlainPair q → Lacks b'&' (print_pair q)
unfolding print_pair
print_pair-Lacks (k, v) h = All-append _ k (b'=' ∷ v) h.0.1 (omega arith, h.2.1)

print_pair-non_empty : (q : Text × Text) → is_empty (print_pair q) ≡ false
unfolding print_pair
print_pair-non_empty ([], v) = refl
print_pair-non_empty (c ∷ k, v) = refl

keep_pairs :
    (qs : List (Text × Text)) → keep (λ p. not (is_empty p)) (map print_pair qs) ≡ map print_pair qs
keep_pairs [] = refl
keep_pairs (q ∷ qs) = rw (print_pair-non_empty q) (ap (λ r. print_pair q ∷ r) (keep_pairs qs))

map-query_pair :
    (qs : List (Text × Text)) → All PlainPair qs → map query_pair (map print_pair qs) ≡ qs
map-query_pair [] h = refl
map-query_pair (q ∷ qs) (h, hs) =
    ap₂ (λ a b. a ∷ b) (query_pair-print_pair q h) (map-query_pair qs hs)

pairs-Lacks : (qs : List (Text × Text)) → All PlainPair qs → All (Lacks b'&') (map print_pair qs)
pairs-Lacks [] h = tt
pairs-Lacks (q ∷ qs) (h, hs) = (print_pair-Lacks q h, pairs-Lacks qs hs)

abbrev pub query_text : List (Text × Text) → Text
query_text qs = join (codes "&") (map print_pair qs)

-- The part of a path before its query has no `?`, and no `://`.
base_path_lem :
    {s r : Option Text} {k : DbPathKind}
    → IsPrintable s r k
    → Lacks b'?' (base_path s r k) × NoScheme (base_path s r k)
base_path_lem at_root = unfold base_path strip_prefix in (omega arith, (refl, tt))
base_path_lem p = elim (spelling p) [
  | inl (es, er, ek) ↦ cc
  | inr w ↦ rw w.spelled (
    (omega arith, joined-Lacks w.first w.others w.named),
    NoDouble-NoScheme (absolute (w.first ∷ w.others)) (absolute-NoDouble w.first w.others w.named),
  )
]

parse_clean-base_path :
    {s r : Option Text} {k : DbPathKind} (path : Text) (query : List (Text × Text))
    → IsPrintable s r k
    → parse_clean path (base_path s r k) query
      ≡ ok (record { schema = s; relation = r; kind = k; query = query })
parse_clean-base_path path query at_root =
    unfold base_path parse_clean normalize_path normalize_trimmed trim split join in refl
parse_clean-base_path path query p = elim (spelling p) [
  | inl (es, er, ek) ↦ cc
  | inr w ↦
      rw w.spelled (parse_clean-absolute path query w.first w.others w.named ∙ w.reads path query)
]

pub strip_protocol_of_NoScheme : (s : Text) → NoScheme s → strip_protocol s ≡ s
unfolding strip_protocol
strip_protocol_of_NoScheme s h = rw (split_once_of_NoScheme s h, strip_protocol)

split_query_of_Lacks : (s : Text) → Lacks b'?' s → split_query s ≡ (s, [])
unfolding split_query
split_query_of_Lacks s h = rw (split_once_of_Lacks b'?' s h, split_query)

split_query-append :
    (s : Text) (q : Text × Text) (qs : List (Text × Text))
    → Lacks b'?' s
    → All PlainPair (q ∷ qs)
    → split_query (s ++ b'?' ∷ query_text (q ∷ qs)) ≡ (s, q ∷ qs)
unfolding split_query
split_query-append s q qs h hs =
    rw (split_once-append b'?' s (query_text (q ∷ qs)) h, split_query)
      (rw (
        split-join b'&' (print_pair q) (map print_pair qs) (pairs-Lacks (q ∷ qs) hs),
        keep_pairs (q ∷ qs),
        map-query_pair (q ∷ qs) hs,
      ))

parse-print :
    {s r : Option Text} {k : DbPathKind} (query : List (Text × Text))
    → IsPrintable s r k
    → All PlainPair query
    → NoScheme (query_text query)
    → parse (to_path (record { schema = s; relation = r; kind = k; query = query }))
      ≡ ok (record { schema = s; relation = r; kind = k; query = query })
unfolding parse to_path
parse-print {s} {r} {k} [] p h n =
    let (no_query, no_scheme) = base_path_lem p in
    rw
      (
        strip_protocol_of_NoScheme (base_path s r k) no_scheme,
        split_query_of_Lacks (base_path s r k) no_query,
      )
      (parse_clean-base_path (base_path s r k) [] p)
parse-print {s} {r} {k} (q ∷ qs) p h n =
    let (no_query, no_scheme) = base_path_lem p in
    rw
      (
        strip_protocol_of_NoScheme _
            (NoScheme-append (base_path s r k) (query_text (q ∷ qs)) no_scheme n),
        split_query-append (base_path s r k) q qs no_query h,
      )
      (parse_clean-base_path _ (q ∷ qs) p)

-- A printed path is read back as it was, if each of its names has a character, no slash and no question
-- mark, and no blank at its end, the relation is not named like a data file, its query's keys and
-- values stand for themselves and the query holds no `://`.
pub parse-to_path :
    (p : DbPath)
    → IsPrintable p.schema p.relation p.kind
    → All PlainPair p.query
    → NoScheme (query_text p.query)
    → parse (to_path p) ≡ ok p
parse-to_path p = parse-print p.query
