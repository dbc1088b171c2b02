-- ===== src/Path/Tests.antt =====
-- The unit tests of rust/src/path.rs that the module runs, and the theorems at concrete paths.
use fsspec_db.Prelude.{◌≡◌, refl, some, [], ◌∷◌, ◌++◌, All, arith}
use fsspec_db.Prelude.Text.{
  Text, codes, split, join, strip_prefix, split_once, rsplit_once, trim, trim_start, trim_end,
  is_whitespace, trim_start_matches,
}
use fsspec_db.Prelude.Text.Laws.{NoScheme}
use fsspec_db.Prelude.Utf8.{encode, encode_char, decode_lossy}
use fsspec_db.Error.{ok}
use fsspec_db.Path.Defs.{DataFormat, parse_format, parse_facet, DbPathKind, DbPath}
use fsspec_db.Path.Query.{
  strip_protocol, hex_digit, hex_pair, decode_bytes, percent_decode, query_pair, split_query,
}
use fsspec_db.Path.Parse.{
  normalize_trimmed, normalize_path, split_relation_format, facet_or_error, parse_parts,
  parse_clean, parse,
}
use fsspec_db.Path.Print.{print_pair, to_path}
use fsspec_db.Path.Names.{IsName}
use fsspec_db.Path.Spelling.{at_data}
use fsspec_db.Path.RoundTrip.{PlainPair, query_text, parse-to_path}
use fsspec_db.Path.Percent.{quote, percent_decode-quote}
use fsspec_db.Path.WellFormed.{WellFormed, parse-WellFormed}
use fsspec_db.Path.Parts.{parse_clean_lem, path_parts, read_parts}
use fsspec_db.Path.Protocol.{parse-protocol}

-- `/main/users.arrow?columns=id,name&limit=5`
abbrev pub users_text : Text
users_text = codes "/main/users.arrow?columns=id,name&limit=5"

abbrev pub users_path : DbPath
users_path = record {
  schema = some (codes "main");
  relation = some (codes "users");
  kind = DbPathKind.relation_data DataFormat.arrow;
  query = (codes "columns", codes "id,name") ∷ (codes "limit", codes "5") ∷ [];
}

pub parse_users : parse users_text ≡ ok users_path
unfolding parse parse_clean parse_parts facet_or_error split_relation_format normalize_path
    normalize_trimmed split_query query_pair percent_decode decode_bytes hex_pair hex_digit
    strip_protocol parse_format parse_facet split join strip_prefix split_once rsplit_once trim
    trim_start trim_end is_whitespace trim_start_matches encode encode_char decode_lossy
parse_users = refl

pub main_name : IsName (codes "main")
unfolding is_whitespace
main_name = (λ e. cc, omega arith, omega arith, refl)

pub users_name : IsName (codes "users")
unfolding is_whitespace
users_name = (λ e. cc, omega arith, omega arith, refl)

users_query : All PlainPair users_path.query
users_query = omega arith

users_query_NoScheme : NoScheme (query_text users_path.query)
unfolding join print_pair strip_prefix
users_query_NoScheme = ground arith

parse-to_path_example : parse (to_path users_path) ≡ ok users_path
parse-to_path_example =
    parse-to_path users_path (at_data main_name users_name) users_query users_query_NoScheme

parse_clean_example :
    parse_clean (codes "db://main//x") (codes "main//x") []
    ≡ read_parts (codes "db://main//x") [] (path_parts (codes "main//x"))
parse_clean_example = parse_clean_lem (codes "db://main//x") (codes "main//x") []

percent_decode-quote_example : percent_decode (quote (codes "a b&é")) ≡ codes "a b&é"
percent_decode-quote_example = percent_decode-quote (codes "a b&é") (omega arith)

-- the path is read from what stands in the query
parse-protocol_example :
    parse (codes "/main/users.arrow?where=url='db" ++ codes "://" ++ users_text) ≡ ok users_path
parse-protocol_example =
    parse-protocol (codes "/main/users.arrow?where=url='db") users_text users_path
      (unfold strip_prefix in ground arith) (unfold strip_prefix in ground arith) parse_users

parse-WellFormed_example : WellFormed users_path
parse-WellFormed_example = parse-WellFormed users_text users_path parse_users
