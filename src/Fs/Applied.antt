-- ===== src/Fs/Applied.antt =====
-- What the options of an accepted query are: those of the last value of each key.
use fsspec_db.Prelude.{
  ℕ, ◌≡◌, refl, sym, ap, ◌∙◌, Option, none, some, List, [], ◌∷◌, if◌then◌else◌, Bool-cases, inl,
  inr, ◌⊎◌,
}
use fsspec_db.Prelude.Text.{Text, codes, text_eq, text_eq_iff}
use fsspec_db.Prelude.Decimal.{parse_u64}
use fsspec_db.Error.{DbError, ok, ok_or, >>=-eq-ok}
use fsspec_db.Types.{Dialect}
use fsspec_db.Sql.Parser.{SqlParser, validate_predicate}
use fsspec_db.Sql.Statements.{SelectOptions}
use fsspec_db.Fs.Options.{column_list, apply_option, apply_options}

-- The value of the last pair with a key.
abbrev pub last_value : Text → List (Text × Text) → Option Text
last_value key [] = none
last_value key ((k, v) ∷ query) = elim (last_value key query) [
  | some w ↦ some w
  | none ↦ if text_eq k key then some v else none
]

abbrev pub columns_of : Option Text → List Text → List Text
columns_of none before = before
columns_of (some v) before = column_list v

-- the limit is the number that the value reads as
abbrev pub IsLimit : Option Text → Option ℕ → Option ℕ → Type 0
IsLimit none before after = after ≡ before
IsLimit (some v) before after = (n : ℕ) × (parse_u64 v ≡ some n) × (after ≡ some n)

-- A pair with another key does not count.
same_last : (found : Option Text) → elim found [ some w ↦ some w | none ↦ none ] ≡ found
same_last none = refl
same_last (some w) = refl

columns_last :
    (found : Option Text) (v : Text) (before : List Text)
    → columns_of found (column_list v)
      ≡ columns_of (elim found [ some w ↦ some w | none ↦ some v ]) before
columns_last none v before = refl
columns_last (some w) v before = refl

IsLimit-last :
    (found : Option Text) (v : Text) (n : ℕ) (before after : Option ℕ)
    → parse_u64 v ≡ some n
    → IsLimit found (some n) after
    → IsLimit (elim found [ some w ↦ some w | none ↦ some v ]) before after
IsLimit-last none v n before after e h = (n, e, h)
IsLimit-last (some w) v n before after e h = h

ok_or-eq-ok :
    {A : Type 0} (found : Option A) (e : DbError) {a : A} → ok_or found e ≡ ok a → found ≡ some a
ok_or-eq-ok none e h = cc
ok_or-eq-ok (some a) e h = cc

module _ (p : SqlParser) (d : Dialect) where
  -- the predicate is the one that the parser reads in the value
  abbrev pub IsWhere : Option Text → Option Text → Option Text → Type 0
  IsWhere none before after = after ≡ before
  IsWhere (some v) before after = (w : Text) × (validate_predicate p d v ≡ ok w) × (after ≡ some w)

  -- The key is known, and a limit is a number and a predicate one that the parser reads.
  abbrev pub IsGood : Text → Text → Type 0
  IsGood key v =
      (key ≡ codes "columns")
      ⊎ (((key ≡ codes "limit") × (n : ℕ) × (parse_u64 v ≡ some n))
          ⊎ ((key ≡ codes "where") × (w : Text) × (validate_predicate p d v ≡ ok w)))

  abbrev pub AllGood : List (Text × Text) → Type 0
  AllGood [] = Unit
  AllGood ((key, v) ∷ query) = IsGood key v × AllGood query

  -- The options after a query, from those before it.
  pub record Applied (query : List (Text × Text)) (o o' : SelectOptions) : Type 0 where
    pub good : AllGood query
    pub columns : o'.columns ≡ columns_of (last_value (codes "columns") query) o.columns
    pub limit : IsLimit (last_value (codes "limit") query) o.limit o'.limit
    pub predicate : IsWhere (last_value (codes "where") query) o.where_clause o'.where_clause

  IsWhere-last :
      (found : Option Text) (v w : Text) (before after : Option Text)
      → validate_predicate p d v ≡ ok w
      → IsWhere found (some w) after
      → IsWhere (elim found [ some w ↦ some w | none ↦ some v ]) before after
  IsWhere-last none v w before after e h = (w, e, h)
  IsWhere-last (some x) v w before after e h = h

  columns_step :
      (v : Text) (query : List (Text × Text)) (o o' : SelectOptions)
      → Applied query (record o { columns = column_list v }) o'
      → Applied ((codes "columns", v) ∷ query) o o'
  columns_step v query o o' a = record {
    good = (inl refl, a.good);
    columns = a.columns ∙ columns_last (last_value (codes "columns") query) v o.columns;
    limit = rw (same_last (last_value (codes "limit") query)) a.limit;
    predicate = rw (same_last (last_value (codes "where") query)) a.predicate;
  }

  limit_step :
      (v : Text) (n : ℕ) (query : List (Text × Text)) (o o' : SelectOptions)
      → parse_u64 v ≡ some n
      → Applied query (record o { limit = some n }) o'
      → Applied ((codes "limit", v) ∷ query) o o'
  limit_step v n query o o' e a = record {
    good = (inr (inl (refl, n, e)), a.good);
    columns =
        a.columns
        ∙ ap (λ w. columns_of w o.columns) (sym (same_last (last_value (codes "columns") query)));
    limit = IsLimit-last (last_value (codes "limit") query) v n o.limit o'.limit e a.limit;
    predicate = rw (same_last (last_value (codes "where") query)) a.predicate;
  }

  where_step :
      (v w : Text) (query : List (Text × Text)) (o o' : SelectOptions)
      → validate_predicate p d v ≡ ok w
      → Applied query (record o { where_clause = some w }) o'
      → Applied ((codes "where", v) ∷ query) o o'
  where_step v w query o o' e a = record {
    good = (inr (inr (refl, w, e)), a.good);
    columns =
        a.columns
        ∙ ap (λ w. columns_of w o.columns) (sym (same_last (last_value (codes "columns") query)));
    limit = rw (same_last (last_value (codes "limit") query)) a.limit;
    predicate =
        IsWhere-last (last_value (codes "where") query) v w o.where_clause o'.where_clause e
          a.predicate;
  }

  -- The first pair of a query that succeeds: its key is known, and its value is right.
  data Round (k v : Text) (o o' : SelectOptions) : Type 0 where
    columns_round : k ≡ codes "columns" → record o { columns = column_list v } ≡ o' → Round k v o o'
    limit_round :
        (n : ℕ)
        → k ≡ codes "limit"
        → parse_u64 v ≡ some n
        → record o { limit = some n } ≡ o'
        → Round k v o o'
    where_round :
        (w : Text)
        → k ≡ codes "where"
        → validate_predicate p d v ≡ ok w
        → record o { where_clause = some w } ≡ o'
        → Round k v o o'

  round : (k v : Text) (o o' : SelectOptions) → apply_option p d (k, v) o ≡ ok o' → Round k v o o'
  unfolding apply_option
  round k v o o' h = elim (Bool-cases (text_eq k (codes "columns"))) [
    | inl c ↦ columns_round ((text_eq_iff k _).0 c) (let h' = rw (c, apply_option) at h in cc)
    | inr nc ↦ elim (Bool-cases (text_eq k (codes "limit"))) [
      | inl l ↦
          let h' = rw (nc, l, apply_option) at h in
          let (n, e, q) = >>=-eq-ok (ok_or (parse_u64 v) _) _ h' in
          limit_round n ((text_eq_iff k _).0 l) (ok_or-eq-ok (parse_u64 v) _ e) (cc)
      | inr nl ↦ elim (Bool-cases (text_eq k (codes "where"))) [
        | inl w ↦
            let h' = rw (nc, nl, w, apply_option) at h in
            let (x, e, q) = >>=-eq-ok (validate_predicate p d v) _ h' in
            where_round x ((text_eq_iff k _).0 w) e (cc)
        | inr nw ↦ let h' = rw (nc, nl, nw, apply_option) at h in absurd (cc)
      ]
    ]
  ]

  pub apply_options_lem :
      (query : List (Text × Text)) (o o' : SelectOptions)
      → apply_options p d query o ≡ ok o'
      → Applied query o o'
  unfolding apply_options
  apply_options_lem [] o o' h =
      let e : o' ≡ o = cc in
      rw e (record { good = tt; columns = refl; limit = refl; predicate = refl })
  apply_options_lem ((k, v) ∷ query) o o' h =
      let (next, first, rest) = >>=-eq-ok (apply_option p d (k, v) o) _ h in
      let a = apply_options_lem query next o' rest in
      elim (round k v o next first) [
        | columns_round e q ↦ rw e (columns_step v query o o' (rw q a))
        | limit_round n e l q ↦ rw e (limit_step v n query o o' l (rw q a))
        | where_round w e l q ↦ rw e (where_step v w query o o' l (rw q a))
      ]
