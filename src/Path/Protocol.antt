-- ===== src/Path/Protocol.antt =====
-- The protocol prefix is looked for in the whole path, the query included.
use fsspec_db.Prelude.{ℕ, ◌≡◌, refl, none, some, List, [], ◌∷◌, ◌++◌, ◌∙◌, sym, arith}
use fsspec_db.Prelude.Text.{Text, codes, strip_prefix, split_once}
use fsspec_db.Prelude.Text.Laws.{NoScheme}
use fsspec_db.Error.{ok}
use fsspec_db.Path.Defs.{DbPath}
use fsspec_db.Path.Query.{strip_protocol, split_query}
use fsspec_db.Path.Parse.{parse, parse_clean, parse_parts}
use fsspec_db.Path.RoundTrip.{strip_protocol_of_NoScheme}
use fsspec_db.Path.Parts.{read_parts, path_parts, parse_clean_lem}

-- A `://` that starts in a text and reaches behind it, into another `://`, does not fit.
no_overlap :
    (c : ℕ) (s t : Text)
    → strip_prefix (codes "://") (c ∷ s) ≡ none
    → strip_prefix (codes "://") (c ∷ s ++ codes "://" ++ t) ≡ none
unfolding strip_prefix
no_overlap c [] t h = ground arith
no_overlap c (d ∷ []) t h = ground arith
no_overlap c (d ∷ e ∷ s) t h = ground arith

split_once-scheme :
    (s t : Text) → NoScheme s → split_once (codes "://") (s ++ codes "://" ++ t) ≡ some (s, t)
unfolding split_once
split_once-scheme [] t h = unfold strip_prefix in refl
split_once-scheme (c ∷ s) t (h, hs) =
    rw (no_overlap c s t h, split_once) (rw (split_once-scheme s t hs) refl)

strip_protocol-append : (s t : Text) → NoScheme s → strip_protocol (s ++ codes "://" ++ t) ≡ t
unfolding strip_protocol
strip_protocol-append s t h = rw (split_once-scheme s t h, strip_protocol)

-- The text of the path stands in the errors only.
read_parts-ok :
    (path other : Text) (query : List (Text × Text)) (ps : List Text) (parsed : DbPath)
    → read_parts path query ps ≡ ok parsed
    → read_parts other query ps ≡ ok parsed
unfolding parse_parts
read_parts-ok path other query [] parsed h = h
read_parts-ok path other query (a ∷ []) parsed h = h
read_parts-ok path other query (a ∷ b ∷ []) parsed h = h
read_parts-ok path other query (a ∷ b ∷ c ∷ []) parsed h = h
read_parts-ok path other query (a ∷ b ∷ c ∷ d ∷ []) parsed h = h
read_parts-ok path other query (a ∷ b ∷ c ∷ d ∷ e ∷ ps) parsed h = absurd (cc)

parse_clean-ok :
    (path other s : Text) (query : List (Text × Text)) (parsed : DbPath)
    → parse_clean path s query ≡ ok parsed
    → parse_clean other s query ≡ ok parsed
parse_clean-ok path other s query parsed h =
    parse_clean_lem other s query
    ∙ read_parts-ok path other query (path_parts s) parsed (sym (parse_clean_lem path s query) ∙ h)

-- What stands before the first `://` of a text, be it a protocol, or a path and a part of its query, is
-- not looked at: where a text without a `://` is a path, the same path is read behind any text without
-- one and a `://`.
pub parse-protocol :
    (s t : Text) (parsed : DbPath)
    → NoScheme s
    → NoScheme t
    → parse t ≡ ok parsed
    → parse (s ++ codes "://" ++ t) ≡ ok parsed
unfolding parse
parse-protocol s t parsed h k e = rw (strip_protocol-append s t h) (
    parse_clean-ok t _ (split_query t).0 (split_query t).1 parsed
      (rw (strip_protocol_of_NoScheme t k) at e))
