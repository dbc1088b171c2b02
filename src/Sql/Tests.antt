-- ===== src/Sql/Tests.antt =====
-- Statements at concrete names, of unit tests of rust/src/sql.rs, and the theorems there.
use fsspec_db.Prelude.{◌*◌, ◌≡◌, refl, some, [], ◌∷◌, ◌++◌, map, All, arith, length}
use fsspec_db.Prelude.Text.{Text, codes, join, replace}
use fsspec_db.Prelude.Decimal.{print, digits}
use fsspec_db.Error.{ok, collect}
use fsspec_db.Types.{sqlite, postgres}
use fsspec_db.Sql.Statements.{
  SelectOptions, has_nul, quoted, placeholder, all_placeholders, quote_identifier, qualified_name,
  select_columns, select_sql, insert_sql, row_placeholders,
}
use fsspec_db.Sql.Quoting.{read_quoted, read_quoted-quoted, IsSelect, select_sql-IsSelect}
use fsspec_db.Sql.Placeholders.{all_placeholders_lem, range_from, concat}

-- the text that `{:?}` gives is not looked at here
abbrev pub no_debug : Text → Text
no_debug s = s

abbrev id_limit : SelectOptions
id_limit = record {
  columns = codes "id" ∷ codes "na\"me" ∷ [];
  limit = some 10;
  where_clause = some (codes "id > 5");
}

abbrev id_sql : Text
id_sql = codes "SELECT \"id\", \"na\"\"me\" FROM \"main\".\"users\" WHERE id > 5 LIMIT 10"

select_users : select_sql no_debug sqlite (codes "main") (codes "users") id_limit ≡ ok id_sql
unfolding select_sql qualified_name select_columns quote_identifier has_nul collect join replace
    print digits
select_users = refl

insert_users :
    insert_sql no_debug postgres (codes "public") (codes "users") (codes "id" ∷ codes "name" ∷ []) 2
    ≡ ok (codes "INSERT INTO \"public\".\"users\" (\"id\", \"name\") VALUES ($1, $2), ($3, $4)")
unfolding insert_sql qualified_name quote_identifier has_nul collect join replace print digits
    all_placeholders row_placeholders placeholder
insert_users = refl

select_sql-IsSelect_example :
    IsSelect no_debug sqlite id_sql (codes "main") (codes "users") id_limit
select_sql-IsSelect_example =
    select_sql-IsSelect no_debug sqlite (codes "main") (codes "users") id_limit id_sql (omega arith)
      select_users

read_quoted-quoted_example :
    read_quoted b'"' (quoted b'"' (codes "a\"b") ++ codes " FROM")
    ≡ some (codes "a\"b", codes " FROM")
read_quoted-quoted_example = read_quoted-quoted b'"' (codes "a\"b") (codes " FROM") (omega arith)

all_placeholders_lem_example :
    (length (all_placeholders postgres 2 3 1) ≡ 2)
    × All (λ row. length row ≡ 3) (all_placeholders postgres 2 3 1)
    × (concat (all_placeholders postgres 2 3 1) ≡ map (placeholder postgres) (range_from 1 (2 * 3)))
all_placeholders_lem_example = all_placeholders_lem postgres 2 3
