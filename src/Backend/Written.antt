-- ===== src/Backend/Written.antt =====
-- What an insertion does: the batches are written one after another in one transaction.
use fsspec_db.Prelude.{ℕ, ◌+◌, ◌%◌, ◌^◌, ◌≡◌, true, false, List, [], ◌∷◌, is_empty, All}
use fsspec_db.Prelude.Text.{Text, member, to_ascii_lowercase}
use fsspec_db.Error.{Result, ok}
use fsspec_db.Types.{RelationInfo, ColumnInfo}
use fsspec_db.Stream.Codec.{Item, batch}
use fsspec_db.Backend.Driver.{Table}
use fsspec_db.Backend.Insert.{Target, valid_names, clear_first}
use fsspec_db.Fs.Database.{InsertMode}

-- The name is one of the relation's, whatever the case of its ASCII letters.
abbrev pub Known : List Text → Text → Type 0
Known valid column = member (to_ascii_lowercase column) valid ≡ true

module _ {Cell : Type 0} (T : Target Cell) (schema relation : Text) (valid : List Text) where
  -- The batches take a transaction and a count to a transaction and a count: batches without rows are
  -- passed over, and every other has known columns and is written.
  pub data Writes : List (Item (Table Cell)) → T.Tx → ℕ → T.Tx → ℕ → Type 0 where
    finished : {tx : T.Tx} {n : ℕ} → Writes [] tx n tx n
    skipped :
        {table : Table Cell} {rest : List (Item (Table Cell))} {tx tx' : T.Tx} {n n' : ℕ}
        → is_empty table.rows ≡ true
        → Writes rest tx n tx' n'
        → Writes (batch table ∷ rest) tx n tx' n'
    wrote :
        {table : Table Cell} {rest : List (Item (Table Cell))} {tx tx₁ tx' : T.Tx} {n m n' : ℕ}
        → is_empty table.rows ≡ false
        → All (Known valid) table.columns
        → T.write schema relation table tx ≡ ok (m, tx₁)
        → Writes rest tx₁ ((n + m) % 2 ^ 64) tx' n'
        → Writes (batch table ∷ rest) tx n tx' n'

abbrev fst_of : {Pool : Type 0} → Result ℕ × Pool → Result ℕ
fst_of x = x.0

abbrev snd_of : {Pool : Type 0} → Result ℕ × Pool → Pool
snd_of x = x.1

module _ {Cell : Type 0} (T : Target Cell) (schema relation : Text) where
  -- The relation is there, a transaction is begun and in it the rows are cleared, if the mode says so,
  -- and the batches written, and it is committed.
  pub record Inserted (pool : T.Pool) (items : List (Item (Table Cell))) (mode : InsertMode) (n : ℕ)
      (pool' : T.Pool) : Type 0 where
    info : RelationInfo
    columns : List ColumnInfo
    started : T.Tx
    cleared : T.Tx
    written : T.Tx
    has_relation : T.relation_info pool schema relation ≡ ok info
    has_columns : T.table_columns pool schema relation ≡ ok columns
    begun : T.begin pool ≡ ok started
    clears : clear_first T schema relation mode started ≡ ok cleared
    writes : Writes T schema relation (valid_names columns) items cleared 0 written n
    commits : T.commit written ≡ (ok tt, pool')
