-- ===== src/Backend/Insert.antt =====
-- The `insert` of rust/src/sqlite.rs, rust/src/mysql.rs and rust/src/postgres.rs, which differ in what
-- `Target` names only: how the table is emptied and how a batch is written.
use fsspec_db.Prelude.{ℕ, ◌+◌, ◌%◌, ◌^◌, Bool, List, [], ◌∷◌, ◌++◌, map, is_empty, if◌then◌else◌}
use fsspec_db.Prelude.Text.{Text, codes, member, to_ascii_lowercase}
use fsspec_db.Error.{DbError, Result, ok, err, ◌>>=◌}
use fsspec_db.Types.{RelationInfo, ColumnInfo}
use fsspec_db.Stream.Codec.{Item, batch, broken}
use fsspec_db.Backend.Driver.{Table}
use fsspec_db.Fs.Database.{InsertMode, append, truncate}

-- A back end, as an insertion uses it. Only `commit` changes the pool's database.
pub record Target (Cell : Type 0) : Type 1 where
  pub Pool : Type 0
  pub Tx : Type 0
  pub relation_info : Pool → Text → Text → Result RelationInfo
  pub table_columns : Pool → Text → Text → Result (List ColumnInfo)
  pub begin : Pool → Result Tx
  pub clear : Text → Text → Tx → Result Tx
  pub write : Text → Text → Table Cell → Tx → Result (ℕ × Tx)
  pub commit : Tx → Result {0} Unit × Pool

-- the loop over the columns of a batch
unfoldable pub check_columns : Text → Text → List Text → List Text → Result {0} Unit
check_columns schema relation valid [] = ok tt
check_columns schema relation valid (column ∷ columns) =
    if member (to_ascii_lowercase column) valid
    then check_columns schema relation valid columns
    else err (
        DbError.invalid_argument (
          codes "column not found in "
          ++ (schema ++ (codes "." ++ (relation ++ (codes ": " ++ column))))))

-- the names that the columns of a batch are looked up among
unfoldable pub valid_names : List ColumnInfo → List Text
valid_names = map (λ (column : ColumnInfo). to_ascii_lowercase column.name)

-- the end of an insertion, by what its commit gave
unfoldable pub after_commit : {Pool : Type 0} → ℕ → Result {0} Unit × Pool → Result ℕ × Pool
after_commit inserted (err e, pool) = (err e, pool)
after_commit inserted (ok _, pool) = (ok inserted, pool)

module _ {Cell : Type 0} (T : Target Cell) (schema relation : Text) where
  unfoldable pub write_table : List Text → Table Cell → T.Tx → Result (ℕ × T.Tx)
  write_table valid table tx = do
    checked ← check_columns schema relation valid table.columns
    T.write schema relation table tx

  -- the loop over the batches; `inserted` is a `u64`
  unfoldable pub insert_batches :
      List Text → List (Item (Table Cell)) → T.Tx → ℕ → Result (ℕ × T.Tx)
  insert_batches valid [] tx inserted = ok (inserted, tx)
  insert_batches valid (broken e ∷ rest) tx inserted = err (DbError.arrow e)
  insert_batches valid (batch table ∷ rest) tx inserted = elim (is_empty table.rows) [
    | Bool.true ↦ insert_batches valid rest tx inserted
    | Bool.false ↦ write_table valid table tx >>= λ wrote.
        insert_batches valid rest wrote.1 ((inserted + wrote.0) % 2 ^ 64)
  ]

  unfoldable pub clear_first : InsertMode → T.Tx → Result T.Tx
  clear_first truncate tx = T.clear schema relation tx
  clear_first append tx = ok tx

  -- everything before the commit
  unfoldable pub insert_open : T.Pool → List (Item (Table Cell)) → InsertMode → Result (ℕ × T.Tx)
  insert_open pool batches mode = do
    info ← T.relation_info pool schema relation
    columns ← T.table_columns pool schema relation
    tx ← T.begin pool
    cleared ← clear_first mode tx
    insert_batches (valid_names columns) batches cleared 0

  -- `insert`, with the pool's database behind it: an error drops the transaction
  unfoldable pub insert : T.Pool → List (Item (Table Cell)) → InsertMode → Result ℕ × T.Pool
  insert pool batches mode = elim (insert_open pool batches mode) [
    | err e ↦ (err e, pool)
    | ok sent ↦ after_commit sent.0 (T.commit sent.1)
  ]
