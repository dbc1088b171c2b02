-- ===== src/Fs/Query.antt =====
-- Which queries are accepted, and that this settles the options.
use fsspec_db.Prelude.{ℕ, ◌≡◌, refl, sym, ap, ◌∙◌, ◌↔◌, Option, none, some, List, [], ◌∷◌, inl, inr}
use fsspec_db.Prelude.Text.{Text}
use fsspec_db.Error.{ok}
use fsspec_db.Types.{Dialect}
use fsspec_db.Sql.Parser.{SqlParser}
use fsspec_db.Sql.Statements.{SelectOptions, no_options}
use fsspec_db.Fs.Options.{apply_option, apply_options, select_options_from_query}
use fsspec_db.Fs.Applied.{IsLimit, IsWhere, IsGood, AllGood, Applied, apply_options_lem}

module _ (p : SqlParser) (d : Dialect) where
  apply_option-Round :
      (k v : Text) (o : SelectOptions)
      → IsGood p d k v
      → (o' : SelectOptions) × (apply_option p d (k, v) o ≡ ok o')
  unfolding apply_option
  apply_option-Round k v o (inl e) = rw e (_, refl)
  apply_option-Round k v o (inr (inl (e, n, q))) = rw (e, q) (_, refl)
  apply_option-Round k v o (inr (inr (e, w, q))) = rw (e, q) (_, refl)

  apply_options_good :
      (query : List (Text × Text)) (o : SelectOptions)
      → AllGood p d query
      → (o' : SelectOptions) × (apply_options p d query o ≡ ok o')
  unfolding apply_options
  apply_options_good [] o h = (o, refl)
  apply_options_good ((k, v) ∷ query) o (h, hs) =
      let (next, e) = apply_option-Round k v o h in
      let (o', q) = apply_options_good query next hs in (o', rw e q)

  IsLimit-same :
      (found : Option Text) (before a b : Option ℕ)
      → IsLimit found before a
      → IsLimit found before b
      → a ≡ b
  IsLimit-same none before a b h k = h ∙ sym k
  IsLimit-same (some v) before a b (n, e, q) (m, f, r) = cc

  IsWhere-same :
      (found before a b : Option Text)
      → IsWhere p d found before a
      → IsWhere p d found before b
      → a ≡ b
  IsWhere-same none before a b h k = h ∙ sym k
  IsWhere-same (some v) before a b (n, e, q) (m, f, r) = cc

  same_options :
      (o o' : SelectOptions)
      → o.columns ≡ o'.columns
      → o.limit ≡ o'.limit
      → o.where_clause ≡ o'.where_clause
      → o ≡ o'
  same_options o o' a b c = cc

  Applied-same :
      (query : List (Text × Text)) (o a b : SelectOptions)
      → Applied p d query o a
      → Applied p d query o b
      → a ≡ b
  Applied-same query o a b h k =
      same_options a b (h.columns ∙ sym k.columns)
        (IsLimit-same _ o.limit a.limit b.limit h.limit k.limit)
        (IsWhere-same _ o.where_clause a.where_clause b.where_clause h.predicate k.predicate)

  -- A query is accepted and gives the options just if each of its keys is columns, limit or where, each
  -- value of limit reads as a number of 64 bits, and each value of where is a predicate for the SQL
  -- parser, and the options are those of the last value of each key; one that no key names keeps its
  -- default.
  pub select_options_from_query_lem :
      (query : List (Text × Text)) (o : SelectOptions)
      → (select_options_from_query p d query ≡ ok o) ↔ Applied p d query no_options o
  unfolding select_options_from_query
  select_options_from_query_lem query o = (
    apply_options_lem p d query no_options o,
    λ h.
        let (o', e) = apply_options_good query no_options h.good in
        e
        ∙ ap ok
            (Applied-same query no_options o' o (apply_options_lem p d query no_options o' e) h),
  )
