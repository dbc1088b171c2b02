-- ===== src/Sql/Parser.antt =====
-- rust/src/sql.rs: what uses the `sqlparser` crate, which is a parameter.
use fsspec_db.Prelude.{
  ℕ, Bool, not, ◌&&◌, ◌||◌, List, [], ◌∷◌, ◌++◌, map, ◌==◌, is_empty, if◌then◌else◌,
}
use fsspec_db.Prelude.Text.{Text, codes, join, trim, trim_matches, member}
use fsspec_db.Types.{Dialect}
use fsspec_db.Error.{Result, ok, err, invalid_argument, ◌>>=◌}

-- `sqlparser`: its parsers fail with the text of an error.
pub data Parsed {ℓ} (A : Type ℓ) : Type ℓ where
  parsed : A → Parsed A
  failed : Text → Parsed A

pub record SqlParser : Type 1 where
  -- a parser over the tokens of a text
  pub Parser : Type 0
  pub Expr : Type 0
  -- `Parser::new(dialect).try_with_sql(text)`
  pub try_with_sql : Dialect → Text → Parsed Parser
  -- `parse_expr`, with the parser behind the expression
  pub parse_expr : Parser → Parsed (Expr × Parser)
  -- `peek_token().token == Token::EOF`
  pub at_end : Parser → Bool
  -- `expr.to_string()`
  pub render : Expr → Text
  -- `Parser::parse_sql` and `visit_relations`: the parts of each relation's name, in the order of
  -- the visit
  pub relations : Dialect → Text → Parsed (List (List Text))

-- `map_err(|err| InvalidArgument("invalid where clause: …"))`
abbrev where_error {ℓ} : {A : Type ℓ} → Parsed A → Result A
where_error (parsed a) = ok a
where_error (failed message) = err (invalid_argument (codes "invalid where clause: " ++ message))

-- one visit: a name that is not empty and not yet listed is added at the end
unfoldable pub add_table : List Text → Text → List Text
add_table tables rendered =
    if not (is_empty rendered) && not (member rendered tables)
    then tables ++ rendered ∷ []
    else tables

unfoldable pub collect_tables : List Text → List Text → List Text
unfolding add_table
collect_tables tables [] = tables
collect_tables tables (name ∷ names) = collect_tables (add_table tables name) names

abbrev is_quote : ℕ → Bool
is_quote c = c == b'"' || c == b'`' || c == b'\''

-- the name of one relation, without the quotes around its parts
unfoldable pub render_name : List Text → Text
render_name parts = join (codes ".") (map (trim_matches is_quote) parts)

module _ (p : SqlParser) where
  unfoldable pub validate_predicate : Dialect → Text → Result Text
  validate_predicate d predicate =
      if is_empty (trim predicate)
      then err (invalid_argument (codes "where clause must not be empty"))
      else (do
        parser ← where_error (p.try_with_sql d (trim predicate))
        found ← where_error (p.parse_expr parser)
        if p.at_end found.1
            then ok (p.render found.0)
            else err (invalid_argument (codes "where clause must be a single boolean expression")))

  unfoldable pub view_dependencies : Dialect → Text → List Text
  view_dependencies d definition =
      if is_empty (trim definition) then [] else elim (p.relations d (trim definition)) [
        | failed _ ↦ []
        | parsed names ↦ collect_tables [] (map render_name names)
      ]
