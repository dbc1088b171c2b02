-- ===== src/Path/WellFormed.antt =====
-- What `DbPath::parse` returns: the parts that the kind of a path asks for are there.
use fsspec_db.Prelude.{
  ℕ, ◌≡◌, ◌∙◌, sym, inl, inr, Option, none, some, List, [], ◌∷◌, arith, All, Lacks, Bool-cases,
  Option-cases,
}
use fsspec_db.Prelude.Text.{Text, codes, text_eq, rsplit_once}
use fsspec_db.Error.{Result, ok, err}
use fsspec_db.Path.Defs.{DataFormat, DbFacet, parse_facet, DbPathKind, DbPath}
use fsspec_db.Path.Query.{strip_protocol, split_query}
use fsspec_db.Path.Parse.{split_relation_format, facet_or_error, parse_parts, parse}
use fsspec_db.Path.Parts.{IsPart, path_parts, path_parts-IsPart, read_parts, parse_clean_lem}

-- `P` holds of a result that is no error.
abbrev pub OnOk {ℓ κ} : {A : Type ℓ} → (A → Type κ) → Result A → Type κ
OnOk P (ok a) = P a
OnOk P (err e) = Unit

pub OnOk_elim {ℓ κ} :
    {A : Type ℓ} (P : A → Type κ) {r : Result A} {a : A} → OnOk P r → r ≡ ok a → P a
OnOk_elim P h e = rw e at h

-- The schema and the relation that a kind asks for are there; they have no `/`, and are not empty
-- but for the relation of a data file.
pub data IsWellFormed : Option Text → Option Text → DbPathKind → Type 0 where
  well_root : IsWellFormed none none DbPathKind.root
  well_schema : {s : Text} → IsPart s → IsWellFormed (some s) none DbPathKind.schema
  well_relation :
      {s r : Text}
      → IsPart s
      → IsPart r
      → split_relation_format r ≡ none
      → IsWellFormed (some s) (some r) DbPathKind.relation
  well_facet :
      {s r : Text} {f : DbFacet}
      → IsPart s
      → IsPart r
      → IsWellFormed (some s) (some r) (DbPathKind.facet f none)
  well_item :
      {s r i : Text} {f : DbFacet}
      → IsPart s
      → IsPart r
      → IsPart i
      → IsWellFormed (some s) (some r) (DbPathKind.facet f (some i))
  well_data :
      {s r : Text} {f : DataFormat}
      → IsPart s
      → Lacks b'/' r
      → IsWellFormed (some s) (some r) (DbPathKind.relation_data f)
  well_definition :
      {s r : Text} → IsPart s → IsPart r → IsWellFormed (some s) (some r) DbPathKind.view_definition

abbrev pub WellFormed : DbPath → Type 0
WellFormed p = IsWellFormed p.schema p.relation p.kind

rsplit_once-Lacks :
    (b sep : ℕ) (s : Text) {x y : Text} → Lacks b s → rsplit_once sep s ≡ some (x, y) → Lacks b x
unfolding rsplit_once
rsplit_once-Lacks b sep [] h e = cc
rsplit_once-Lacks b sep (c ∷ s) {x} {y} h e = elim (Option-cases (rsplit_once sep s)) [
  | inl n ↦ let empty : x ≡ [] = ground arith in rw empty tt
  | inr ((u, v), m) ↦
      let longer : x ≡ c ∷ u = ground arith in rw longer (h.0, rsplit_once-Lacks b sep s h.1 m)
]

split_relation_format-Lacks :
    (s : Text) {r : Text} {f : DataFormat}
    → Lacks b'/' s
    → split_relation_format s ≡ some (r, f)
    → Lacks b'/' r
split_relation_format-Lacks s {r} {f} h e = elim (Option-cases (rsplit_once b'.' s)) [
  | inl n ↦
      let bad : ◌≡◌ {A = Option (Text × DataFormat)} none (some (r, f)) =
        unfold split_relation_format in rw (n, split_relation_format) at e in
      cc
  | inr ((u, v), m) ↦
      let same : u ≡ r = unfold split_relation_format in ground arith in
      rw (← same) (rsplit_once-Lacks b'/' b'.' s h m)
]

module _ (path : Text) (query : List (Text × Text)) where
  read_parts-WellFormed :
      (ps : List Text) → All IsPart ps → OnOk WellFormed (read_parts path query ps)
  unfolding parse_parts facet_or_error
  read_parts-WellFormed [] h = well_root
  read_parts-WellFormed (s ∷ []) h = well_schema h.0
  read_parts-WellFormed (s ∷ r ∷ []) h = elim (Option-cases (split_relation_format r)) [
    | inl e ↦ rw (e, parse_parts) (well_relation h.0 h.1.0 e)
    | inr ((r', f), e) ↦
        rw (e, parse_parts) (well_data h.0 (split_relation_format-Lacks r h.1.0.1 e))
  ]
  read_parts-WellFormed (s ∷ r ∷ f ∷ []) h =
      elim (Bool-cases (text_eq f (codes "definition.sql"))) [
        | inl e ↦ rw e (well_definition h.0 h.1.0)
        | inr e ↦ rw e (elim (Option-cases (parse_facet f)) [
          | inl n ↦ rw (n, facet_or_error) tt
          | inr (g, m) ↦ rw (m, facet_or_error) (well_facet h.0 h.1.0)
        ])
      ]
  read_parts-WellFormed (s ∷ r ∷ f ∷ i ∷ []) h = elim (Option-cases (parse_facet f)) [
    | inl n ↦ rw (n, facet_or_error) tt
    | inr (g, m) ↦ rw (m, facet_or_error) (well_item h.0 h.1.0 h.1.1.1.0)
  ]
  read_parts-WellFormed (s ∷ r ∷ f ∷ i ∷ j ∷ ps) h = tt

-- Whatever path is parsed, the schema and the relation that its kind asks for are there, and no
-- part of it is empty or has a `/`, but for the relation of a data file, which may be empty.
pub parse-WellFormed : (s : Text) (p : DbPath) → parse s ≡ ok p → WellFormed p
unfolding parse
parse-WellFormed s p e =
    let (t, q) = split_query (strip_protocol s) in
    OnOk_elim WellFormed (read_parts-WellFormed s q (path_parts t) (path_parts-IsPart t))
      (sym (parse_clean_lem s t q) ∙ e)
