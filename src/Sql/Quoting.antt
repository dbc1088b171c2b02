-- ===== src/Sql/Quoting.antt =====
-- Quoted identifiers, read back by the rule of SQL: a quote inside is doubled, and a single one ends
-- the identifier.
use mathlib.Core.Option
use fsspec_db.Prelude.{
  ℕ, ◌≡◌, refl, ap, ◌≢◌, true, false, Option, none, some, List, [], ◌∷◌, ◌++◌, append_assoc,
  append-nil, ◌≤◌, is_empty, arith, ◌==◌, if◌then◌else◌, Bool-cases, Option-cases, ◌⊎◌, inl, inr,
}
use fsspec_db.Prelude.Text.{Text, codes, join, replace}
use fsspec_db.Prelude.Decimal.{u64_max, parse_u64, print, parse_u64-print}
use fsspec_db.Types.{Dialect, generic, sqlite, postgres, my_sql}
use fsspec_db.Error.{Result, ok, collect, collect-cons, >>=-eq-ok}
use fsspec_db.Sql.Statements.{
  has_nul, quote_char, quoted, quote_identifier, qualified_name, select_columns, select_sql,
  SelectOptions, append_where, append_limit,
}

abbrev push_first : ℕ → Text × Text → Text × Text
push_first c (a, b) = (c ∷ a, b)

-- behind the opening quote: the identifier, and what follows its closing quote
pub read_body : ℕ → Text → Option (Text × Text)
read_body q [] = none
read_body q (c ∷ []) = if c == q then some ([], []) else none
read_body q (c ∷ d ∷ s) =
    let inside = Option.map (push_first q) (read_body q s) in
    let next = Option.map (push_first c) (read_body q (d ∷ s)) in
    if c == q then (if d == q then inside else some ([], d ∷ s)) else next

pub read_quoted : ℕ → Text → Option (Text × Text)
unfolding read_body
read_quoted q [] = none
read_quoted q (c ∷ s) = if c == q then read_body q s else none

-- The text does not go on with a quote.
abbrev pub NoQuote : ℕ → Text → Type 0
NoQuote q [] = Unit
NoQuote q (c ∷ s) = ¬ (c ≡ q)

read_body_end : (q : ℕ) (rest : Text) → NoQuote q rest → read_body q (q ∷ rest) ≡ some ([], rest)
unfolding read_body
read_body_end q [] h = ground arith
read_body_end q (c ∷ rest) h = ground arith

read_body_plain :
    (q c : ℕ) (s : Text)
    → ¬ (c ≡ q)
    → s ≢ []
    → read_body q (c ∷ s) ≡ Option.map (push_first c) (read_body q s)
unfolding read_body
read_body_plain q c [] h n = absurd (n refl)
read_body_plain q c (d ∷ s) h n = ground arith

read_body_double :
    (q : ℕ) (s : Text) → read_body q (q ∷ q ∷ s) ≡ Option.map (push_first q) (read_body q s)
unfolding read_body
read_body_double q s = ground arith

concat-ne-nil : (s : Text) (q : ℕ) (rest : Text) → (s ++ q ∷ []) ++ rest ≢ []
concat-ne-nil [] q rest e = cc
concat-ne-nil (c ∷ s) q rest e = cc

abbrev body : ℕ → Text → Text
body q s = replace q (q ∷ q ∷ []) s ++ q ∷ []

body_hit : (q c : ℕ) (s : Text) → (c == q) ≡ true → body q (c ∷ s) ≡ q ∷ q ∷ body q s
unfolding replace
body_hit q c s e = rw e

body_miss : (q c : ℕ) (s : Text) → (c == q) ≡ false → body q (c ∷ s) ≡ c ∷ body q s
unfolding replace
body_miss q c s e = rw e

read_body-body :
    (q : ℕ) (s rest : Text) → NoQuote q rest → read_body q (body q s ++ rest) ≡ some (s, rest)
read_body-body q [] rest h = unfold replace in read_body_end q rest h
read_body-body q (c ∷ s) rest h = elim (Bool-cases (c == q)) [
  | inl e ↦
      let same : q ≡ c = ground arith in
      rw (body_hit q c s e) (
        rw (read_body_double q (body q s ++ rest))
          (rw (read_body-body q s rest h) (ap (λ x. some (x ∷ s, rest)) same)))
  | inr e ↦ rw (body_miss q c s e) (
      rw (read_body_plain q c (body q s ++ rest) (ground arith) (concat-ne-nil _ q rest))
        (rw (read_body-body q s rest h)))
]

-- A quoted identifier, whatever characters it holds, is read back as itself, if what follows does
-- not start with the quote.
pub read_quoted-quoted :
    (q : ℕ) (s rest : Text) → NoQuote q rest → read_quoted q (quoted q s ++ rest) ≡ some (s, rest)
unfolding read_quoted
read_quoted-quoted q s rest h = ground (arith, read_body-body q s rest h)

-- Names in a list, behind one another with a comma and a space between.
pub data Reads (q : ℕ) : Text → List Text → Text → Type 0 where
  last : {t n rest : Text} → read_quoted q t ≡ some (n, rest) → Reads q t (n ∷ []) rest
  more :
      {t n u rest : Text} {ns : List Text}
      → read_quoted q t ≡ some (n, codes ", " ++ u)
      → Reads q u ns rest
      → Reads q t (n ∷ ns) rest

-- A space starts no quoted name, in any dialect.
quote_char-ne :
    (d : Dialect)
    → (¬ (b' ' ≡ quote_char d))
      × (¬ (b',' ≡ quote_char d))
      × (¬ (b'.' ≡ quote_char d))
      × (¬ (b')' ≡ quote_char d))
quote_char-ne generic = omega arith
quote_char-ne sqlite = omega arith
quote_char-ne postgres = omega arith
quote_char-ne my_sql = omega arith

ok_injective : {s t : Text} → ◌≡◌ {A = Result Text} (ok s) (ok t) → t ≡ s
ok_injective h = cc

two_names :
    (t : Text) {t' : Text} {ts ts' : List Text}
    → ts ≡ t' ∷ ts'
    → (rest : Text)
    → join (codes ", ") (t ∷ ts) ++ rest ≡ t ++ (codes ", " ++ (join (codes ", ") ts ++ rest))
two_names t e rest = rw e (unfold join in simp append_assoc)

-- a limit is a number of 64 bits
abbrev pub FitsLimit : Option ℕ → Type 0
FitsLimit none = Unit
FitsLimit (some n) = n ≤ u64_max

-- What stands behind the relation of a SELECT, by its predicate and its limit.
abbrev pub IsTail : Text → Option Text → Option ℕ → Type 0
IsTail tail none none = tail ≡ []
IsTail tail (some predicate) none = tail ≡ codes " WHERE " ++ predicate
IsTail tail none (some n) =
    (number : Text) × (tail ≡ codes " LIMIT " ++ number) × (parse_u64 number ≡ some n)
IsTail tail (some predicate) (some n) =
    (number : Text) × (tail ≡ codes " WHERE " ++ (predicate ++ (codes " LIMIT " ++ number)))
    × (parse_u64 number ≡ some n)

tail_lem :
    (predicate : Option Text) (limit : Option ℕ)
    → FitsLimit limit
    → IsTail (append_where predicate ++ append_limit limit) predicate limit
tail_lem none none h = refl
tail_lem (some predicate) none h = append-nil (codes " WHERE " ++ predicate)
tail_lem none (some n) h = (print n, refl, parse_u64-print n h)
tail_lem (some predicate) (some n) h = (print n, refl, parse_u64-print n h)

module _ (debug : Text → Text) (d : Dialect) where
  -- What is quoted was no empty name and held no NUL, and the quoted text is the name's.
  pub quote_identifier-eq-ok :
      (s : Text) {t : Text}
      → quote_identifier debug d s ≡ ok t
      → (is_empty s ≡ false) × (has_nul s ≡ false) × (t ≡ quoted (quote_char d) s)
  unfolding quote_identifier
  quote_identifier-eq-ok s h = ground arith

  pub read-quote_identifier :
      (s rest : Text) {t : Text}
      → quote_identifier debug d s ≡ ok t
      → NoQuote (quote_char d) rest
      → read_quoted (quote_char d) (t ++ rest) ≡ some (s, rest)
  read-quote_identifier s rest h k =
      rw (quote_identifier-eq-ok s h).2 (read_quoted-quoted (quote_char d) s rest k)

  Reads-collect :
      (c : Text) (cs : List Text) (rest : Text) {names : List Text}
      → collect (quote_identifier debug d) (c ∷ cs) ≡ ok names
      → NoQuote (quote_char d) rest
      → Reads (quote_char d) (join (codes ", ") names ++ rest) (c ∷ cs) rest
  Reads-collect c [] rest h k =
      let (t, ts, p, p', e) = collect-cons (quote_identifier debug d) c [] h in
      let none_left : ts ≡ [] = unfold collect in cc in
      rw (e, none_left) (unfold join in last (read-quote_identifier c rest p k))
  Reads-collect c (c' ∷ cs) rest h k =
      let (t, ts, p, p', e) = collect-cons (quote_identifier debug d) c (c' ∷ cs) h in
      let (t', ts', _, _, e') = collect-cons (quote_identifier debug d) c' cs p' in
      rw (e, two_names t e' rest)
        (more (read-quote_identifier c _ p (quote_char-ne d).1) (Reads-collect c' cs rest p' k))

  abbrev tail_text : SelectOptions → Text
  tail_text options = append_where options.where_clause ++ append_limit options.limit

  tail_text-NoQuote : (options : SelectOptions) → NoQuote (quote_char d) (tail_text options)
  tail_text-NoQuote options = elim (Option-cases options.where_clause) [
    | inr (w, e) ↦ rw e ((quote_char-ne d).0)
    | inl e ↦ rw e (elim (Option-cases options.limit) [
      | inl f ↦ rw f tt
      | inr (n, f) ↦ rw f ((quote_char-ne d).0)
    ])
  ]

  -- The text of a SELECT, read back: the columns, or a star where none was asked for, then the
  -- schema, the relation, and behind them the predicate and the limit that there are.
  pub record IsSelect (sql schema relation : Text) (options : SelectOptions) : Type 0 where
    pub names : Text
    pub from : Text
    pub dot : Text
    pub text : sql ≡ codes "SELECT " ++ names
    pub columns :
        ((options.columns ≡ []) × (names ≡ codes "* FROM " ++ from))
        ⊎ Reads (quote_char d) names options.columns (codes " FROM " ++ from)
    pub schema_read : read_quoted (quote_char d) from ≡ some (schema, codes "." ++ dot)
    pub tail : Text
    pub relation_read : read_quoted (quote_char d) dot ≡ some (relation, tail)
    pub options_read : IsTail tail options.where_clause options.limit

  columns_read :
      (cs : List Text) (from : Text) {names : Text}
      → select_columns debug d cs ≡ ok names
      → ((cs ≡ []) × (names ++ (codes " FROM " ++ from) ≡ codes "* FROM " ++ from))
        ⊎ Reads (quote_char d) (names ++ (codes " FROM " ++ from)) cs (codes " FROM " ++ from)
  unfolding select_columns
  columns_read [] from {names} h = let star : names ≡ codes "*" = cc in inl (refl, rw star)
  columns_read (c ∷ cs) from {names} h =
      let (ts, p, e) = >>=-eq-ok (collect (quote_identifier debug d) (c ∷ cs)) _ h in
      let joined : join (codes ", ") ts ≡ names = cc in
      inr (rw (← joined) (Reads-collect c cs (codes " FROM " ++ from) p ((quote_char-ne d).0)))

  qualified_read :
      (schema relation tail : Text) {name : Text}
      → qualified_name debug d schema relation ≡ ok name
      → NoQuote (quote_char d) tail
      → (dot : Text) × (read_quoted (quote_char d) (name ++ tail) ≡ some (schema, codes "." ++ dot))
        × (read_quoted (quote_char d) dot ≡ some (relation, tail))
  unfolding qualified_name
  qualified_read schema relation tail {name} h k =
      let (s, p, h') = >>=-eq-ok (quote_identifier debug d schema) _ h in
      let (r, q, h'') = >>=-eq-ok (quote_identifier debug d relation) _ h' in
      let same : s ++ (codes "." ++ r) ≡ name = cc in
      (
        r ++ tail,
        rw (← same, append_assoc)
            (read-quote_identifier schema (codes "." ++ (r ++ tail)) p ((quote_char-ne d).2)),
        read-quote_identifier relation tail q k,
      )

  -- A SELECT that is built, with a limit of 64 bits where it has one, reads back as the columns, or a
  -- star where none was asked for, the schema and the relation that it was built for; behind them
  -- stand the keyword WHERE and the predicate, where there is one, and the keyword LIMIT and digits
  -- that read as the limit, where there is one, and nothing else.
  pub select_sql-IsSelect :
      (schema relation : Text) (options : SelectOptions) (sql : Text)
      → FitsLimit options.limit
      → select_sql debug d schema relation options ≡ ok sql
      → IsSelect sql schema relation options
  unfolding select_sql
  select_sql-IsSelect schema relation options sql fits h =
      let (cols, p, h') = >>=-eq-ok (select_columns debug d options.columns) _ h in
      let (name, q, h'') = >>=-eq-ok (qualified_name debug d schema relation) _ h' in
      let (dot, r, r') =
        qualified_read schema relation (tail_text options) q (tail_text-NoQuote options) in
      let from = name ++ tail_text options in
      record {
        names = cols ++ (codes " FROM " ++ from);
        from = from;
        dot = dot;
        text = ok_injective h'';
        columns = columns_read options.columns from p;
        schema_read = r;
        tail = tail_text options;
        relation_read = r';
        options_read = tail_lem options.where_clause options.limit fits;
      }
