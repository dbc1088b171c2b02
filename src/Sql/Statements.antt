-- ===== src/Sql/Statements.antt =====
-- rust/src/sql.rs: quoting, SELECT and INSERT.
-- `debug` is Rust's `{:?}` of a text, which stands in one error message only.
use fsspec_db.Prelude.{
  ℕ, zero, suc, ◌+◌, Bool, ◌||◌, Option, none, some, List, [], ◌∷◌, ◌++◌, map, length, is_empty,
  ◌==◌, if◌then◌else◌,
}
use fsspec_db.Prelude.Text.{Text, codes, join, replace}
use fsspec_db.Prelude.Decimal.{print}
use fsspec_db.Types.{Dialect, generic, sqlite, postgres, my_sql}
use fsspec_db.Error.{Result, ok, err, invalid_argument, collect, ◌>>=◌}

pub record SelectOptions : Type 0 where
  pub columns : List Text
  pub limit : Option ℕ
  pub where_clause : Option Text

-- `SelectOptions::default()`
abbrev pub no_options : SelectOptions
no_options = record { columns = []; limit = none; where_clause = none }

-- `identifier.contains('\0')`
unfoldable pub has_nul : Text → Bool
has_nul [] = Bool.false
has_nul (c ∷ s) = c == 0 || has_nul s

-- the character that a dialect quotes with, and the text between two of them
abbrev pub quote_char : Dialect → ℕ
quote_char my_sql = b'`'
quote_char generic = b'"'
quote_char sqlite = b'"'
quote_char postgres = b'"'

abbrev pub quoted : ℕ → Text → Text
quoted q s = q ∷ (replace q (q ∷ q ∷ []) s ++ q ∷ [])

unfoldable pub placeholder : Dialect → ℕ → Text
unfolding print
placeholder postgres index = b'$' ∷ print index
placeholder generic index = codes "?"
placeholder sqlite index = codes "?"
placeholder my_sql index = codes "?"

-- The placeholders of one row, from `index` on, and the index behind them.
unfoldable pub row_placeholders : Dialect → ℕ → ℕ → List Text × ℕ
row_placeholders d zero index = ([], index)
row_placeholders d (suc n) index =
    let (rest, next) = row_placeholders d n (index + 1) in (placeholder d index ∷ rest, next)

-- The placeholders of each row, with the index running on from row to row.
unfoldable pub all_placeholders : Dialect → ℕ → ℕ → ℕ → List (List Text)
unfolding row_placeholders
all_placeholders d zero columns index = []
all_placeholders d (suc rows) columns index =
    let (row, next) = row_placeholders d columns index in row ∷ all_placeholders d rows columns next

abbrev pub value_row : List Text → Text
value_row row = codes "(" ++ (join (codes ", ") row ++ codes ")")

abbrev pub append_where : Option Text → Text
append_where none = []
append_where (some predicate) = codes " WHERE " ++ predicate

abbrev pub append_limit : Option ℕ → Text
append_limit none = []
append_limit (some limit) = codes " LIMIT " ++ print limit

module _ (debug : Text → Text) where
  unfoldable pub quote_identifier : Dialect → Text → Result Text
  quote_identifier d identifier =
      if is_empty identifier || has_nul identifier
      then err (invalid_argument (codes "invalid SQL identifier: " ++ debug identifier))
      else ok (quoted (quote_char d) identifier)

  unfoldable pub qualified_name : Dialect → Text → Text → Result Text
  qualified_name d schema relation = do
    s ← quote_identifier d schema
    r ← quote_identifier d relation
    ok (s ++ (codes "." ++ r))

  -- the column list of a SELECT
  unfoldable pub select_columns : Dialect → List Text → Result Text
  select_columns d [] = ok (codes "*")
  select_columns d (c ∷ cs) = do
    names ← collect (quote_identifier d) (c ∷ cs)
    ok (join (codes ", ") names)

  unfoldable pub select_sql : Dialect → Text → Text → SelectOptions → Result Text
  select_sql d schema relation options = do
    columns ← select_columns d options.columns
    name ← qualified_name d schema relation
    ok (
        codes "SELECT "
        ++ (columns
            ++ (codes " FROM "
                ++ (name ++ (append_where options.where_clause ++ append_limit options.limit)))))

  unfoldable pub insert_sql : Dialect → Text → Text → List Text → ℕ → Result Text
  insert_sql d schema relation columns rows =
      if is_empty columns
      then err (invalid_argument (codes "INSERT requires at least one column"))
      else if rows == 0
      then err (invalid_argument (codes "INSERT requires at least one row"))
      else (do
        name ← qualified_name d schema relation
        names ← collect (quote_identifier d) columns
        let values = join (codes ", ") (map value_row (all_placeholders d rows (length columns) 1))
        ok (
            codes "INSERT INTO "
            ++ (name
                ++ (codes " (" ++ (join (codes ", ") names ++ (codes ") VALUES " ++ values))))))
