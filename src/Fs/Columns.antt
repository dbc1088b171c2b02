-- ===== src/Fs/Columns.antt =====
-- The listing of a relation's columns, and the information at the path of one of them.
use fsspec_db.Prelude.{
  ℕ, ◌≡◌, ◌≢◌, refl, inl, inr, Option, none, some, List, [], ◌∷◌, ◌++◌, map, append_assoc, Lacks,
  Bool-cases,
}
use fsspec_db.Prelude.Text.{Text, codes, text_eq, text_eq_iff, join}
use fsspec_db.Prelude.Text.Laws.{text_eq_refl, rsplit_once-append}
use fsspec_db.Error.{ok}
use fsspec_db.Types.{RelationInfo, ColumnInfo}
use fsspec_db.Path.Defs.{DbFacet, DbPathKind, DbPath}
use fsspec_db.Path.Parse.{parse}
use fsspec_db.Path.Print.{base_path, to_path, facet_path, facet_item_path}
use fsspec_db.Path.Names.{IsName}
use fsspec_db.Path.Spelling.{at_facet, at_item}
use fsspec_db.Path.RoundTrip.{parse-to_path}
use fsspec_db.Sql.Parser.{SqlParser}
use fsspec_db.Stream.Codec.{Registry, InfoOps}
use fsspec_db.Fs.Database.{Database}
use fsspec_db.Fs.Infos.{column_info, insert_some}
use fsspec_db.Fs.Facets.{find, last_part, facet_entries, facet_item_info}
use fsspec_db.Fs.Kinds.{collect_ok, both}
use fsspec_db.Fs.Dispatch.{list_kind, ls_db, info_kind, info_db}

-- What fsspec_rs documents of the name of file information: it is the path that it is made with.
pub record KeepsName (I : InfoOps) : Type 0 where
  pub file : (n : Text) (size : ℕ) → I.name (I.file n size) ≡ n
  pub extra : (k v : Text) (i : I.FileInfo) → I.name (I.insert_extra k v i) ≡ I.name i

abbrev at_path : Text → Text → DbPathKind → DbPath
at_path schema relation kind = record {
  schema = some schema;
  relation = some relation;
  kind = kind;
  query = [];
}

parse-facet_path :
    (s r : Text) (f : DbFacet)
    → IsName s
    → IsName r
    → parse (facet_path s r f) ≡ ok (at_path s r (DbPathKind.facet f none))
unfolding facet_path to_path base_path
parse-facet_path s r f a b =
    parse-to_path (at_path s r (DbPathKind.facet f none)) (at_facet a b) tt (unfold join in tt)

item_spelled : (s r i : Text) (f : DbFacet) → facet_item_path s r f i ≡ facet_path s r f ++ b'/' ∷ i
unfolding facet_path facet_item_path
item_spelled s r i f = simp append_assoc

parse-facet_item_path :
    (s r i : Text) (f : DbFacet)
    → IsName s
    → IsName r
    → IsName i
    → parse (facet_item_path s r f i) ≡ ok (at_path s r (DbPathKind.facet f (some i)))
unfolding facet_path to_path base_path
parse-facet_item_path s r i f a b c = rw (item_spelled s r i f) (
    parse-to_path (at_path s r (DbPathKind.facet f (some i))) (at_item a b c) tt
      (unfold join in tt))

last_part-facet_item_path :
    (s r i : Text) (f : DbFacet) → Lacks b'/' i → last_part (facet_item_path s r f i) ≡ i
unfolding last_part
last_part-facet_item_path s r i f h =
    rw (item_spelled s r i f) (rw (rsplit_once-append b'/' (facet_path s r f) i h, last_part) refl)

module _ (I : InfoOps) (k : KeepsName I) (s r : Text) where
  name_some :
      (key : Text) (value : Option Text) (i : I.FileInfo)
      → I.name (insert_some I key value i) ≡ I.name i
  name_some key none i = refl
  name_some key (some v) i = k.extra key v i

  name-column_info :
      (c : ColumnInfo) → I.name (column_info I s r c) ≡ facet_item_path s r DbFacet.columns c.name
  unfolding column_info
  name-column_info c = rw (
    name_some (codes "comment") c.comment _,
    name_some (codes "default") c.default _,
    k.extra _ _ _,
    k.extra _ _ _,
    k.extra _ _ _,
    k.extra _ _ _,
    k.extra _ _ _,
    k.file _ _,
  )

  last_part-column_info :
      (c : ColumnInfo) → Lacks b'/' c.name → last_part (I.name (column_info I s r c)) ≡ c.name
  last_part-column_info c h =
      rw (name-column_info c) (last_part-facet_item_path s r c.name DbFacet.columns h)

  -- Columns with other names.
  abbrev pub AreOthers : Text → List ColumnInfo → Type 0
  AreOthers name [] = Unit
  AreOthers name (b ∷ before) = (Lacks b'/' b.name × (b.name ≢ name)) × AreOthers name before

  find_column :
      (before : List ColumnInfo) (c : ColumnInfo) (after : List ColumnInfo)
      → Lacks b'/' c.name
      → AreOthers c.name before
      → find
          (λ entry. text_eq (last_part (I.name entry)) c.name)
          (map (column_info I s r) (before ++ c ∷ after))
        ≡ some (column_info I s r c)
  unfolding find
  find_column [] c after h a = rw (last_part-column_info c h, text_eq_refl c.name)
  find_column (b ∷ before) c after h ((l, n), a) = elim (Bool-cases (text_eq b.name c.name)) [
    | inl e ↦ absurd (n ((text_eq_iff b.name c.name).0 e))
    | inr e ↦ rw (last_part-column_info b l, e) (find_column before c after h a)
  ]

  module _ {R : Registry} (p : SqlParser) (db : Database R) where
    -- Where the database knows the relation and tells its columns, and the schema, the relation and a
    -- column have names that a path can print, listing the path of the columns gives the information
    -- of each, and the path of that column has the very information that is listed for it, if no column
    -- before it has the same name, or a slash in its name.
    pub info_db-columns :
        (info : RelationInfo) (before : List ColumnInfo) (c : ColumnInfo) (after : List ColumnInfo)
        → IsName s
        → IsName r
        → IsName c.name
        → db.relation_info s r ≡ ok info
        → db.list_columns s r ≡ ok (before ++ c ∷ after)
        → AreOthers c.name before
        → (ls_db I p db (facet_path s r DbFacet.columns)
            ≡ ok (map (column_info I s r) (before ++ c ∷ after)))
          × (info_db I p db (facet_item_path s r DbFacet.columns c.name) ≡ ok (column_info I s r c))
    unfolding ls_db info_db list_kind info_kind facet_entries facet_item_info
    info_db-columns info before c after a b d e f others =
        let entries : facet_entries I p db s r DbFacet.columns
            ≡ ok (map (column_info I s r) (before ++ c ∷ after)) =
          rw (e, f) (collect_ok _ (before ++ c ∷ after)) in
        let names = both (at_path s r DbPathKind.relation) refl refl in
        (
          rw (parse-facet_path s r DbFacet.columns a b)
              (rw (both (at_path s r (DbPathKind.facet DbFacet.columns none)) refl refl) entries),
          rw (parse-facet_item_path s r c.name DbFacet.columns a b d) (
              rw (both (at_path s r (DbPathKind.facet DbFacet.columns (some c.name))) refl refl)
                (rw entries (rw (find_column before c after d.1 others) refl))),
        )
