-- ===== src/Stream/Cursor.antt =====
-- rust/src/file.rs: `DbFile`, a cursor over the bytes of a file that is read whole. `Cursor` reads
-- from its position, moves it, and lets it stand past the end.
use fsspec_db.Prelude.{
  ℕ, suc, ◌+◌, ◌-◌, Bool, false, Option, none, some, length, take, drop, leb, if◌then◌else◌,
}
use fsspec_db.Prelude.Text.{codes}
use fsspec_db.Prelude.Decimal.{u64_max}
use fsspec_db.Error.{IoErrorKind, IoError}
use fsspec_db.Stream.Codec.{Bytes, Io}
use fsspec_db.Stream.Defs.{Offset, at, before, SeekFrom, start, current, end}

-- Files on the same bytes, which hold their position and the information they were opened with.
pub record DbFile (Info : Type 0) : Type 0 where
  pub contents : Bytes
  pub position : ℕ
  pub info : Info
  pub writable : Bool

-- `checked_add_signed`
unfoldable pub checked_add_signed : ℕ → Offset → Option ℕ
checked_add_signed base (at n) = if leb (base + n) u64_max then some (base + n) else none
checked_add_signed base (before n) = if leb (suc n) base then some (base - suc n) else none

module _ {Info : Type 0} where
  -- `DbFile::readable`
  unfoldable pub readable : Bytes → Info → DbFile Info
  readable contents info = record {
    contents = contents;
    position = 0;
    info = info;
    writable = false;
  }

  unfoldable pub cursor_read : ℕ → DbFile Info → Io Bytes × DbFile Info
  cursor_read size f =
      let bytes = take size (drop f.position f.contents) in
      (Io.done bytes, record f { position = f.position + length bytes })

  unfoldable pub cursor_target : SeekFrom → DbFile Info → Option ℕ
  cursor_target (start position) f = some position
  cursor_target (current offset) f = checked_add_signed f.position offset
  cursor_target (end offset) f = checked_add_signed (length f.contents) offset

  unfoldable pub cursor_seek : SeekFrom → DbFile Info → Io ℕ × DbFile Info
  cursor_seek pos f = elim (cursor_target pos f) [
    | none ↦ (
      Io.failed (record {
        kind = IoErrorKind.invalid_input;
        message = codes "invalid seek to a negative or overflowing position";
      }),
      f,
    )
    | some position ↦ (Io.done position, record f { position = position })
  ]

  -- the refusal of `write` on a file that is not writable; no file of the crate is
  unfoldable pub refuse_write : DbFile Info → Option IoError
  refuse_write f =
      if f.writable
      then none
      else some
          (record { kind = IoErrorKind.unsupported; message = codes "database file is read-only" })

  -- `FsFile::size`
  unfoldable pub file_size : DbFile Info → Option ℕ
  file_size f = some (length f.contents)
