-- ===== src/Backend/Write.antt =====
-- Writing a batch by an INSERT, in rust/src/sqlite.rs and rust/src/mysql.rs: the values are bound row
-- after row.
-- `debug` is Rust's `{:?}` of a text, and `bind` the back end's `bind_arrow_value`.
use fsspec_db.Prelude.{
  ℕ, ◌*◌, ◌≡◌, sym, ap, ◌∙◌, List, [], ◌∷◌, ◌++◌, length, length-append, All, suc, arith,
}
use fsspec_db.Prelude.Text.{Text, codes}
use fsspec_db.Error.{Result, ok, collect, collect-cons, ok_injective, ◌>>=◌, >>=-eq-ok}
use fsspec_db.Types.{Dialect}
use fsspec_db.Sql.Statements.{quote_identifier, insert_sql, all_placeholders}
use fsspec_db.Sql.Placeholders.{concat, all_placeholders_lem, length-map_range}
use fsspec_db.Backend.Driver.{Floats, Driver, Value, Table, lift}

module _ {F : Floats} {Cell : Type 0} (bind : Cell → Result (Value F)) where
  unfoldable pub bind_rows : List (List Cell) → Result (List (Value F))
  bind_rows [] = ok []
  bind_rows (row ∷ rows) = do values ← collect bind row; rest ← bind_rows rows; ok (values ++ rest)

  length-collect :
      (row : List Cell) (values : List (Value F))
      → collect bind row ≡ ok values
      → length values ≡ length row
  unfolding collect
  length-collect [] values h = ap length (ok_injective (sym h))
  length-collect (cell ∷ row) values h =
      let (v, vs, p, q, r) = collect-cons bind cell row h in
      ap length r ∙ ap suc (length-collect row vs q)

  length-bind_rows :
      (columns : ℕ) (rows : List (List Cell)) (values : List (Value F))
      → All (λ row. length row ≡ columns) rows
      → bind_rows rows ≡ ok values
      → length values ≡ length rows * columns
  unfolding bind_rows
  length-bind_rows columns [] values h e =
      let z : 0 * columns ≡ 0 = omega arith in ap length (ok_injective (sym e)) ∙ sym z
  length-bind_rows columns (row ∷ rows) values (h, hs) e =
      let (vs, p, e₁) = >>=-eq-ok (collect bind row) _ e in
      let (rest, q, e₂) = >>=-eq-ok (bind_rows rows) _ e₁ in
      let l₁ = length-collect row vs p in
      let l₂ = length-bind_rows columns rows rest hs q in
      let l₃ = length-append vs rest in let l₄ = ap length (ok_injective e₂) in omega arith

  -- Where every row of a batch has a cell for each column, the values that are bound to its INSERT are
  -- as many as the placeholders in it.
  pub bind_rows-placeholders :
      (dialect : Dialect) (columns : ℕ) (rows : List (List Cell)) (values : List (Value F))
      → All (λ row. length row ≡ columns) rows
      → bind_rows rows ≡ ok values
      → length values ≡ length (concat (all_placeholders dialect (length rows) columns 1))
  bind_rows-placeholders dialect columns rows values h e =
      let (n, k, numbered) = all_placeholders_lem dialect (length rows) columns in
      length-bind_rows columns rows values h e
      ∙ sym (ap length numbered ∙ length-map_range dialect (length rows * columns) 1)

module _ {F : Floats} (D : Driver F) (debug : Text → Text) (dialect : Dialect) where
  unfoldable pub insert_table :
      {Cell : Type 0}
      → (Cell → Result (Value F))
      → Text
      → Text
      → Table Cell
      → D.Tx
      → Result (ℕ × D.Tx)
  insert_table bind schema relation table tx = do
    sql ← insert_sql debug dialect schema relation table.columns (length table.rows)
    values ← bind_rows bind table.rows
    lift (D.execute sql values tx)

  -- the statement of `InsertMode::Truncate`
  unfoldable pub clear_table : Text → Text → Text → D.Tx → Result D.Tx
  clear_table words schema relation tx = do
    s ← quote_identifier debug dialect schema
    r ← quote_identifier debug dialect relation
    cleared ← lift (D.execute (words ++ (s ++ (codes "." ++ r))) [] tx)
    ok cleared.1
