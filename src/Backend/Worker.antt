-- ===== src/Backend/Worker.antt =====
-- The streamed queries of rust/src/sqlite.rs, rust/src/mysql.rs and rust/src/postgres.rs, which are the
-- same up to names: a thread fetches the rows, and sends first the schema and then the batches. And
-- `ChannelRecordBatchReader` of rust/src/database.rs.
-- The receiver of the schema waits until it gets one or the sender is gone, so a schema is always
-- taken. The reader of the batches may be dropped: `takes` is the number of sends it still takes.
use fsspec_db.Prelude.{
  ℕ, zero, suc, Bool, true, false, Option, none, some, List, [], ◌∷◌, ◌++◌, length, map, ◌==◌,
}
use fsspec_db.Prelude.Text.{Text, codes}
use fsspec_db.Error.{DbError, SqlxError, Result, ok, err, display, from_sqlx}
use fsspec_db.Stream.Codec.{Item, batch, broken}

abbrev pub query_batch_size : ℕ
query_batch_size = 1024

-- What a back end makes of the columns of a row and of rows: a batch, its schema, and the schema of
-- a statement that is only prepared.
pub record Decoder : Type 1 where
  pub Row : Type 0
  pub Metadata : Type 0
  pub Schema : Type 0
  pub Batch : Type 0
  pub column_metadata : Row → Metadata
  pub rows_to_batch : Metadata → List Row → Result Batch
  pub batch_schema : Batch → Schema
  pub query_schema : Result Schema
  pub new_empty : Schema → Batch

-- The two channels, and the flag of the worker.
pub record Channels (D : Decoder) : Type 0 where
  pub schemas : List (Result D.Schema)
  pub batches : List (Result D.Batch)
  pub takes : ℕ
  pub schema_sent : Bool

-- How the worker ends; `expect` of a `None` panics.
pub data Ended : Type 0 where
  returned : Result {0} Unit → Ended
  panicked : Ended

-- an item of the reader: an error by the text of `ArrowError::ExternalError`
unfoldable pub channel_item : {Batch : Type 0} → Result Batch → Item Batch
channel_item (ok b) = batch b
channel_item (err e) = broken (codes "External error: " ++ display e)

abbrev pub forget : Result Bool → Result {0} Unit
forget (err e) = err e
forget (ok taken) = ok tt

module _ (D : Decoder) where
  -- `schema_tx.send(schema)`
  unfoldable pub send_schema : Result D.Schema → Channels D → Channels D
  send_schema schema c = record {
    schemas = c.schemas ++ schema ∷ [];
    batches = c.batches;
    takes = c.takes;
    schema_sent = c.schema_sent;
  }

  -- `*schema_sent = true`
  unfoldable pub mark_sent : Channels D → Channels D
  mark_sent c = record {
    schemas = c.schemas;
    batches = c.batches;
    takes = c.takes;
    schema_sent = true;
  }

  -- `batch_tx.send(item)`, and whether it was taken
  unfoldable pub send_batch : Result D.Batch → Channels D → Channels D × Bool
  send_batch item c = elim c.takes [
    | zero ↦ (c, false)
    | suc takes ↦ (
      record {
        schemas = c.schemas;
        batches = c.batches ++ item ∷ [];
        takes = takes;
        schema_sent = c.schema_sent;
      },
      true,
    )
  ]

  -- the schema before the first batch
  unfoldable pub send_schema_once : D.Batch → Channels D → Channels D
  send_schema_once b c = elim c.schema_sent [
    | true ↦ c
    | false ↦ mark_sent (send_schema (ok (D.batch_schema b)) c)
  ]

  -- `send_sqlite_chunk`
  unfoldable pub send_chunk : D.Metadata → List D.Row → Channels D → Channels D × Result Bool
  send_chunk metadata chunk c = elim (D.rows_to_batch metadata chunk) [
    | err e ↦ (c, err e)
    | ok b ↦ let (sent, taken) = send_batch (ok b) (send_schema_once b c) in (sent, ok taken)
  ]

  -- the end of the worker where no row is left in the chunk
  unfoldable pub send_empty : Channels D → Channels D × Ended
  send_empty c = elim c.schema_sent [
    | true ↦ (c, returned (ok tt))
    | false ↦ elim D.query_schema [
      | err e ↦ (c, returned (err e))
      | ok schema ↦ (
        (send_batch (ok (D.new_empty schema)) (mark_sent (send_schema (ok schema) c))).0,
        returned (ok tt),
      )
    ]
  ]

  -- the worker behind its loop
  unfoldable pub send_last : Option D.Metadata → List D.Row → Channels D → Channels D × Ended
  send_last metadata [] c = send_empty c
  send_last none (row ∷ chunk) c = (c, panicked)
  send_last (some metadata) (row ∷ chunk) c =
      let (sent, result) = send_chunk metadata (row ∷ chunk) c in (sent, returned (forget result))

  abbrev pub metadata_or : Option D.Metadata → D.Row → D.Metadata
  metadata_or none row = D.column_metadata row
  metadata_or (some metadata) row = metadata

  -- the loop of `sqlite_stream_worker`, with the rows that are still to come and the error that the stream
  -- ends with, if any
  unfoldable pub worker :
      Option D.Metadata
      → List D.Row
      → List D.Row
      → Option SqlxError
      → Channels D
      → Channels D × Ended
  worker metadata chunk [] (some e) c = (c, returned (err (from_sqlx e)))
  worker metadata chunk [] none c = send_last metadata chunk c
  worker metadata chunk (row ∷ rows) e c =
      let known = metadata_or metadata row in
      let filled = chunk ++ row ∷ [] in
      elim (length filled == query_batch_size) [
        | false ↦ worker (some known) filled rows e c
        | true ↦
            let (sent, result) = send_chunk known filled c in
            elim result [
              | err d ↦ (sent, returned (err d))
              | ok taken ↦ elim taken [
                | false ↦ (sent, returned (ok tt))
                | true ↦ worker (some known) [] rows e sent
              ]
            ]
      ]

  -- the thread of `sqlite_stream_query`: an error of the worker goes where the reader looks
  unfoldable pub send_error : Channels D × Ended → Channels D
  send_error (c, panicked) = c
  send_error (c, returned (ok _)) = c
  send_error (c, returned (err e)) = elim c.schema_sent [
    | true ↦ (send_batch (err e) c).0
    | false ↦ send_schema (err e) c
  ]

  unfoldable pub stream_thread : List D.Row → Option SqlxError → ℕ → Channels D
  stream_thread rows e takes = send_error (
      worker none [] rows e
        (record { schemas = []; batches = []; takes = takes; schema_sent = false }))

  -- `schema_rx.recv()` and the reader on what the thread sends; `name` is the back end's in the
  -- error
  unfoldable pub received : Text → Channels D → Result (D.Schema × List (Item D.Batch))
  received name c = elim c.schemas [
    | [] ↦ err (DbError.other (name ++ codes " query stream ended before schema"))
    | err e ∷ rest ↦ err e
    | ok schema ∷ rest ↦ ok (schema, map channel_item c.batches)
  ]

  unfoldable pub stream_query :
      Text → List D.Row → Option SqlxError → ℕ → Result (D.Schema × List (Item D.Batch))
  stream_query name rows e takes = received name (stream_thread rows e takes)
