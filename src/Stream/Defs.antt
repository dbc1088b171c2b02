-- ===== src/Stream/Defs.antt =====
-- rust/src/stream.rs: `EncodedDbFile`. The reader is the list of the items it will still give; past
-- its end it gives none. The buffer that the writer and the file share is a field of the file: a
-- call of the writer appends to it what it has written. `usize` has 64 bits, so that converting
-- a `u64` to it never fails; the lock of the buffer is not poisoned.
use fsspec_db.Prelude.{
  ℕ, suc, ◌+◌, ◌-◌, Bool, true, false, ◌||◌, Option, none, some, List, [], ◌∷◌, ◌++◌, length, take,
  drop, leb, ◌==◌, if◌then◌else◌, min,
}
use fsspec_db.Prelude.Text.{codes}
use fsspec_db.Prelude.Decimal.{u64_max}
use fsspec_db.Error.{
  IoErrorKind, IoError, DbError, Result, ok, err, ◌>>=◌, display, from_interchange,
}
use fsspec_db.Path.Defs.{DataFormat}
use fsspec_db.Stream.Codec.{Bytes, InterchangeFormat, lift, Item, Registry, InfoOps, Io}

-- `i64`: `at n` for n, `before n` for -1 - n
pub data Offset : Type 0 where
  at before : ℕ → Offset

-- `SeekFrom`
pub data SeekFrom : Type 0 where
  start : ℕ → SeekFrom
  current end : Offset → SeekFrom

unfoldable pub offset_position : ℕ → Offset → Io ℕ
offset_position position (at n) =
    if leb (position + n) u64_max
    then Io.done (position + n)
    else Io.failed
        (record { kind = IoErrorKind.invalid_input; message = codes "seek position overflow" })
offset_position position (before n) =
    if leb (suc n) position
    then Io.done (position - suc n)
    else Io.failed
        (record { kind = IoErrorKind.invalid_input; message = codes "negative seek position" })

unfoldable pub db_error_to_io : DbError → IoError
db_error_to_io e = record { kind = IoErrorKind.invalid_data; message = display e }

-- the match at the head of `FormatEncoder::new`
unfoldable pub interchange_format : DataFormat → Result InterchangeFormat
interchange_format DataFormat.parquet = ok InterchangeFormat.parquet
interchange_format DataFormat.arrow = ok InterchangeFormat.arrow
interchange_format DataFormat.csv = ok InterchangeFormat.csv
interchange_format DataFormat.jsonl = ok InterchangeFormat.json_lines
interchange_format DataFormat.sql =
    err (DbError.not_supported (codes "SQL DDL encoding is handled by DatabaseFs"))

-- The encoder is its `writer`, which `finish` takes away.
pub record EncodedDbFile (R : Registry) (I : InfoOps) : Type 0 where
  pub reader : List (Item R.Batch)
  pub writer : Option R.Writer
  pub sink : Bytes
  pub emitted : Bytes
  pub position : ℕ
  pub info : I.FileInfo
  pub eof : Bool

-- `start.saturating_add(buf.len())`
abbrev pub read_target : ℕ → ℕ → ℕ
read_target position size = min (position + size) u64_max

module _ {R : Registry} {I : InfoOps} where
  -- `self.emitted.extend_from_slice(&self.sink.take()?)`
  unfoldable pub drain_sink : EncodedDbFile R I → EncodedDbFile R I
  drain_sink f = record f { emitted = f.emitted ++ f.sink; sink = [] }

  -- `FormatEncoder::write_batch` and the `drain_sink` after it, which a failure skips
  unfoldable pub write_item : R.Batch → EncodedDbFile R I → Io Unit × EncodedDbFile R I
  write_item b f = elim f.writer [
    | none ↦ (Io.panicked, f)
    | some w ↦
        let out = R.write_batch b w in
        let f' = record f { writer = some out.writer; sink = f.sink ++ out.bytes } in
        elim out.failure [
          | none ↦ (Io.done tt, drain_sink f')
          | some e ↦ (Io.failed (db_error_to_io (from_interchange e)), f')
        ]
  ]

  -- `FormatEncoder::finish` and what follows it at the end of the reader
  unfoldable pub finish_file : EncodedDbFile R I → Io Unit × EncodedDbFile R I
  finish_file f = elim f.writer [
    | none ↦ (Io.done tt, drain_sink (record f { eof = true }))
    | some w ↦
        let out = R.finish w in
        let f' = record f { writer = none; sink = f.sink ++ out.bytes } in
        elim out.failure [
          | none ↦ (Io.done tt, drain_sink (record f' { eof = true }))
          | some e ↦ (Io.failed (db_error_to_io (from_interchange e)), f')
        ]
  ]

  -- the loop's condition is not met
  unfoldable pub is_filled : Option ℕ → EncodedDbFile R I → Bool
  is_filled none f = f.eof
  is_filled (some target) f = f.eof || leb target (length f.emitted)

  -- The loop of `fill_until`; the first list is the reader. A finished encoder sets `eof`, on which
  -- the loop ends.
  unfoldable pub fill_loop :
      Option ℕ → List (Item R.Batch) → EncodedDbFile R I → Io Unit × EncodedDbFile R I
  fill_loop target [] f = if is_filled target f then (Io.done tt, f) else finish_file f
  fill_loop target (Item.broken e ∷ rest) f = if is_filled target f then (Io.done tt, f) else (
    Io.failed (record { kind = IoErrorKind.invalid_data; message = e }),
    record f { reader = rest },
  )
  fill_loop target (Item.batch b ∷ rest) f =
      let out = write_item b (record f { reader = rest }) in
      let next = fill_loop target rest out.1 in
      if is_filled target f then (Io.done tt, f) else elim out.0 [
        | Io.done _ ↦ next
        | Io.failed e ↦ (Io.failed e, out.1)
        | Io.panicked ↦ (Io.panicked, out.1)
      ]

  unfoldable pub fill_until : Option ℕ → EncodedDbFile R I → Io Unit × EncodedDbFile R I
  fill_until target f = fill_loop target f.reader f

  -- `EncodedDbFile::new`: the sink is drained once the writer has started
  unfoldable pub open_file :
      R.Schema → List (Item R.Batch) → DataFormat → I.FileInfo → Result (EncodedDbFile R I)
  open_file schema reader format info = do
    f ← interchange_format format
    codec ← lift (R.find f)
    out ← lift (R.start_owned_writer codec schema)
    ok (
        drain_sink (record {
          reader = reader;
          writer = some out.writer;
          sink = out.bytes;
          emitted = [];
          position = 0;
          info = info;
          eof = false;
        }))

  -- `read` behind the filling of the buffer: what is copied into the caller's buffer
  unfoldable pub read_emitted : ℕ → EncodedDbFile R I → Bytes × EncodedDbFile R I
  read_emitted size f =
      let available = length f.emitted - f.position in
      let count = min size available in
      if leb (length f.emitted) f.position
      then ([], f)
      else (take count (drop f.position f.emitted), record f { position = f.position + count })

  -- `read` into a buffer of the given size
  unfoldable pub read : ℕ → EncodedDbFile R I → Io Bytes × EncodedDbFile R I
  read size f =
      let out = fill_until (some (read_target f.position size)) f in
      if size == 0 then (Io.done [], f) else elim out.0 [
        | Io.done _ ↦ (Io.done (read_emitted size out.1).0, (read_emitted size out.1).1)
        | Io.failed e ↦ (Io.failed e, out.1)
        | Io.panicked ↦ (Io.panicked, out.1)
      ]

  unfoldable pub write : Bytes → EncodedDbFile R I → Io ℕ × EncodedDbFile R I
  write bytes f = (
    Io.failed
        (record { kind = IoErrorKind.unsupported; message = codes "database file is read-only" }),
    f,
  )

  -- the new position, and the file after the fill that `SeekFrom::End` needs
  unfoldable pub seek_position : SeekFrom → EncodedDbFile R I → Io ℕ × EncodedDbFile R I
  seek_position (start position) f = (Io.done position, f)
  seek_position (current offset) f = (offset_position f.position offset, f)
  seek_position (end offset) f =
      let out = fill_until none f in
      elim out.0 [
        | Io.done _ ↦ (offset_position (length out.1.emitted) offset, out.1)
        | Io.failed e ↦ (Io.failed e, out.1)
        | Io.panicked ↦ (Io.panicked, out.1)
      ]

  -- `seek` to a new position
  unfoldable pub move_to : ℕ → EncodedDbFile R I → Io ℕ × EncodedDbFile R I
  move_to position f =
      let out = fill_until (some position) f in
      elim out.0 [
        | Io.done _ ↦ (Io.done position, record out.1 { position = position })
        | Io.failed e ↦ (Io.failed e, out.1)
        | Io.panicked ↦ (Io.panicked, out.1)
      ]

  unfoldable pub seek : SeekFrom → EncodedDbFile R I → Io ℕ × EncodedDbFile R I
  seek pos f =
      let out = seek_position pos f in
      elim out.0 [
        | Io.done position ↦ move_to position out.1
        | Io.failed e ↦ (Io.failed e, out.1)
        | Io.panicked ↦ (Io.panicked, out.1)
      ]

  -- `FsFile::info`
  unfoldable pub file_info : EncodedDbFile R I → I.FileInfo
  file_info f =
      if f.eof
      then I.insert_extra (codes "size_known") (codes "true") (I.set_size (length f.emitted) f.info)
      else f.info

  -- `FsFile::size`
  unfoldable pub size : EncodedDbFile R I → Option ℕ
  size f = if f.eof then some (length f.emitted) else none
