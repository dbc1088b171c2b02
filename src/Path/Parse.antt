-- ===== src/Path/Parse.antt =====
-- rust/src/path.rs: `DbPath::parse`.
use mathlib.Core.Option
use fsspec_db.Prelude.{not, Option, none, some, List, [], ◌∷◌, ◌++◌, if◌then◌else◌, is_empty, keep}
use fsspec_db.Prelude.Text.{
  Text, codes, text_eq, split, join, rsplit_once, trim, trim_start_matches,
}
use fsspec_db.Error.{Result, ok, err, invalid_argument, ok_or, ◌>>=◌}
use fsspec_db.Path.Defs.{
  DataFormat, parse_format, DbFacet, parse_facet, DbPathKind, DbPath, root_path,
}
use fsspec_db.Path.Query.{strip_protocol, split_query}

-- `normalize_path` behind `trim`
unfoldable pub normalize_trimmed : Text → Text
normalize_trimmed trimmed =
    if is_empty trimmed
    then codes "/"
    else if text_eq trimmed (codes "/")
    then codes "/"
    else (let collapsed =
          join (codes "/") (keep (λ part. not (is_empty part)) (split b'/' trimmed)) in
        if is_empty collapsed then codes "/" else b'/' ∷ collapsed)

unfoldable pub normalize_path : Text → Text
normalize_path path = normalize_trimmed (trim path)

unfoldable pub split_relation_format : Text → Option (Text × DataFormat)
unfolding rsplit_once parse_format
split_relation_format value = elim (rsplit_once b'.' value) [
  | none ↦ none
  | some (name, ext) ↦ Option.map (λ format. (name, format)) (parse_format ext)
]

unfoldable pub facet_or_error : Text → Result DbFacet
unfolding parse_facet
facet_or_error value =
    ok_or (parse_facet value) (invalid_argument (codes "unknown database path facet: " ++ value))

-- the `match` on the parts of the clean path
unfoldable pub parse_parts : Text → List (Text × Text) → List Text → Result DbPath
unfolding split_relation_format facet_or_error
parse_parts path query (schema ∷ []) =
    ok (record { schema = some schema; relation = none; kind = DbPathKind.schema; query = query })
parse_parts path query (schema ∷ relation_part ∷ []) = elim (split_relation_format relation_part) [
  | some (relation, format) ↦ ok (record {
    schema = some schema;
    relation = some relation;
    kind = DbPathKind.relation_data format;
    query = query;
  })
  | none ↦ ok (record {
    schema = some schema;
    relation = some relation_part;
    kind = DbPathKind.relation;
    query = query;
  })
]
parse_parts path query (schema ∷ relation ∷ facet ∷ []) =
    if text_eq facet (codes "definition.sql")
    then ok (record {
      schema = some schema;
      relation = some relation;
      kind = DbPathKind.view_definition;
      query = query;
    })
    else (do
      f ← facet_or_error facet
      ok (record {
        schema = some schema;
        relation = some relation;
        kind = DbPathKind.facet f none;
        query = query;
      }))
parse_parts path query (schema ∷ relation ∷ facet ∷ item ∷ []) = do
  f ← facet_or_error facet
  ok (record {
    schema = some schema;
    relation = some relation;
    kind = DbPathKind.facet f (some item);
    query = query;
  })
parse_parts path query _ = err (invalid_argument (codes "unsupported database path: " ++ path))

-- the part of `DbPath::parse` behind `split_query`
unfoldable pub parse_clean : Text → Text → List (Text × Text) → Result DbPath
parse_clean path path_part query =
    let clean = normalize_path path_part in
    if text_eq clean (codes "/")
    then ok (record root_path { query = query })
    else parse_parts path query (split b'/' (trim_start_matches b'/' clean))

-- `DbPath::parse`
unfoldable pub parse : Text → Result DbPath
parse path =
    let (path_part, query) = split_query (strip_protocol path) in parse_clean path path_part query
