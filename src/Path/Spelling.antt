-- ===== src/Path/Spelling.antt =====
-- How the paths that can be printed are spelled, and how their parts are read.
use fsspec_db.Prelude.{
  ◌≡◌, refl, ◌≢◌, Option, none, some, List, [], ◌∷◌, ◌++◌, append_assoc, arith, ◌⊎◌, inl, inr,
  false, All, All-append, Lacks,
}
use fsspec_db.Prelude.Text.{Text, codes, text_eq, join, is_whitespace}
use fsspec_db.Prelude.Text.Laws.{EndsSolid, rsplit_once-append, EndsSolid-append}
use fsspec_db.Error.{ok}
use fsspec_db.Path.Defs.{
  DataFormat, parquet, arrow, csv, jsonl, sql, extension, parse_format, DbFacet, columns, indexes,
  constraints, depends_on, facet_str, parse_facet, DbPathKind,
}
use fsspec_db.Path.Parse.{split_relation_format, parse_parts, facet_or_error}
use fsspec_db.Path.Print.{base_path}
use fsspec_db.Path.Parts.{absolute, append-ne-nil}
use fsspec_db.Path.Names.{IsName}

pub parse_format-extension : (f : DataFormat) → parse_format (extension f) ≡ some f
unfolding parse_format extension
parse_format-extension parquet = refl
parse_format-extension arrow = refl
parse_format-extension csv = refl
parse_format-extension jsonl = refl
parse_format-extension sql = refl

pub parse_facet-facet_str : (f : DbFacet) → parse_facet (facet_str f) ≡ some f
unfolding parse_facet facet_str
parse_facet-facet_str columns = refl
parse_facet-facet_str indexes = refl
parse_facet-facet_str constraints = refl
parse_facet-facet_str depends_on = refl

facet_str-IsName : (f : DbFacet) → IsName (facet_str f)
unfolding facet_str is_whitespace
facet_str-IsName columns = (cc, omega arith, omega arith, refl)
facet_str-IsName indexes = (cc, omega arith, omega arith, refl)
facet_str-IsName constraints = (cc, omega arith, omega arith, refl)
facet_str-IsName depends_on = (cc, omega arith, omega arith, refl)

definition-IsName : IsName (codes "definition.sql")
unfolding is_whitespace
definition-IsName = (cc, omega arith, omega arith, refl)

-- A dot and an extension.
abbrev suffix : DataFormat → Text
suffix f = codes "." ++ extension f

suffix-lem :
    (f : DataFormat)
    → (suffix f ≢ []) × Lacks b'/' (suffix f) × Lacks b'?' (suffix f) × EndsSolid (suffix f)
unfolding extension is_whitespace
suffix-lem parquet = (cc, omega arith, omega arith, refl)
suffix-lem arrow = (cc, omega arith, omega arith, refl)
suffix-lem csv = (cc, omega arith, omega arith, refl)
suffix-lem jsonl = (cc, omega arith, omega arith, refl)
suffix-lem sql = (cc, omega arith, omega arith, refl)

extension-Lacks : (f : DataFormat) → Lacks b'.' (extension f)
unfolding extension
extension-Lacks parquet = omega arith
extension-Lacks arrow = omega arith
extension-Lacks csv = omega arith
extension-Lacks jsonl = omega arith
extension-Lacks sql = omega arith

-- A relation's name with the extension of a format is a name, and is read as the two.
data_name-IsName : (r : Text) (f : DataFormat) → IsName r → IsName (r ++ suffix f)
data_name-IsName r f (n, h, k, _) =
    let (m, h', k', e) = suffix-lem f in
    (
      append-ne-nil r (suffix f) n,
      All-append _ r (suffix f) h h',
      All-append _ r (suffix f) k k',
      EndsSolid-append r (suffix f) m e,
    )

pub split_relation_format-append :
    (r : Text) (f : DataFormat) → split_relation_format (r ++ suffix f) ≡ some (r, f)
unfolding split_relation_format
split_relation_format-append r f =
    rw (rsplit_once-append b'.' r (extension f) (extension-Lacks f), split_relation_format)
      (rw (parse_format-extension f))

facet_str-ne-definition : (f : DbFacet) → text_eq (facet_str f) (codes "definition.sql") ≡ false
unfolding facet_str
facet_str-ne-definition columns = refl
facet_str-ne-definition indexes = refl
facet_str-ne-definition constraints = refl
facet_str-ne-definition depends_on = refl

-- The paths that can be printed and read back: each part that the kind asks for is there and is a
-- name, there is no other part, and the name of a relation is not that of a data file.
pub data IsPrintable : Option Text → Option Text → DbPathKind → Type 0 where
  at_root : IsPrintable none none DbPathKind.root
  at_schema : {s : Text} → IsName s → IsPrintable (some s) none DbPathKind.schema
  at_relation :
      {s r : Text}
      → IsName s
      → IsName r
      → split_relation_format r ≡ none
      → IsPrintable (some s) (some r) DbPathKind.relation
  at_facet :
      {s r : Text} {f : DbFacet}
      → IsName s
      → IsName r
      → IsPrintable (some s) (some r) (DbPathKind.facet f none)
  at_item :
      {s r i : Text} {f : DbFacet}
      → IsName s
      → IsName r
      → IsName i
      → IsPrintable (some s) (some r) (DbPathKind.facet f (some i))
  at_data :
      {s r : Text} {f : DataFormat}
      → IsName s
      → IsName r
      → IsPrintable (some s) (some r) (DbPathKind.relation_data f)
  at_definition :
      {s r : Text} → IsName s → IsName r → IsPrintable (some s) (some r) DbPathKind.view_definition

-- A path of names: how it is printed, and how its parts are read.
pub record Spelling (s r : Option Text) (k : DbPathKind) : Type 0 where
  pub first : Text
  pub others : List Text
  pub spelled : base_path s r k ≡ absolute (first ∷ others)
  pub named : All IsName (first ∷ others)
  pub reads :
      (path : Text) (query : List (Text × Text))
      → parse_parts path query (first ∷ others)
        ≡ ok (record { schema = s; relation = r; kind = k; query = query })

pub spelling :
    {s r : Option Text} {k : DbPathKind}
    → IsPrintable s r k
    → ((s ≡ none) × (r ≡ none) × (k ≡ DbPathKind.root)) ⊎ Spelling s r k
unfolding base_path parse_parts join
spelling at_root = inl (refl, refl, refl)
spelling (at_schema {s} h) =
    inr (record {
      first = s;
      others = [];
      spelled = refl;
      named = (h, tt);
      reads = λ path query. refl;
    })
spelling (at_relation {s} {r} h k e) = inr (record {
  first = s;
  others = r ∷ [];
  spelled = refl;
  named = (h, (k, tt));
  reads = λ path query. rw (e, parse_parts);
})
spelling (at_facet {s} {r} {f} h k) = inr (record {
  first = s;
  others = r ∷ facet_str f ∷ [];
  spelled = refl;
  named = (h, (k, (facet_str-IsName f, tt)));
  reads = λ path query.
      rw (facet_str-ne-definition f, parse_parts) (rw (parse_facet-facet_str f, facet_or_error));
})
spelling (at_item {s} {r} {i} {f} h k l) = inr (record {
  first = s;
  others = r ∷ facet_str f ∷ i ∷ [];
  spelled = simp append_assoc;
  named = (h, (k, (facet_str-IsName f, (l, tt))));
  reads = λ path query. rw (parse_facet-facet_str f, facet_or_error);
})
spelling (at_data {s} {r} {f} h k) = inr (record {
  first = s;
  others = (r ++ suffix f) ∷ [];
  spelled = refl;
  named = (h, (data_name-IsName r f k, tt));
  reads = λ path query. rw (split_relation_format-append r f, parse_parts);
})
spelling (at_definition {s} {r} h k) = inr (record {
  first = s;
  others = r ∷ codes "definition.sql" ∷ [];
  spelled = refl;
  named = (h, (k, (definition-IsName, tt)));
  reads = λ path query. refl;
})
