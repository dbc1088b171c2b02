-- ===== src/Fs/CatFile.antt =====
-- rust/src/fs.rs: `cat_file`, from the path on, and what it gives.
use fsspec_db.Prelude.{ℕ, ◌-◌, ◌<◌, ◌≡◌, refl, ap, false, Option, length, take, drop}
use fsspec_db.Prelude.Text.{Text}
use fsspec_db.Prelude.Decimal.{u64_max}
use fsspec_db.Error.{ok, err}
use fsspec_db.Sql.Parser.{SqlParser}
use fsspec_db.Stream.Codec.{Bytes, Registry, InfoOps, Io}
use fsspec_db.Stream.Defs.{Offset, EncodedDbFile, start, read, seek}
use fsspec_db.Stream.Cursor.{DbFile, readable, cursor_read, cursor_seek, cursor_target}
use fsspec_db.Stream.Refines.{Refines, Agrees, read-Refines, seek-Refines}
use fsspec_db.Fs.Database.{Database}
use fsspec_db.Fs.Read.{OpenedFile, encoded, whole, open_read}
use fsspec_db.Fs.Slice.{python_index}
use fsspec_db.Fs.Cat.{SeekableFile, Cat, finished, cat_open}
use fsspec_db.Fs.Ranges.{ReadsAs, cat_open-slice}

module _ (R : Registry) (I : InfoOps) where
  abbrev pub encoded_file : SeekableFile
  encoded_file = record {
    State = EncodedDbFile R I;
    read = read;
    seek_start = λ n f. seek (start n) f;
  }

  abbrev pub whole_file : SeekableFile
  whole_file = record {
    State = DbFile I.FileInfo;
    read = cursor_read;
    seek_start = λ n d. cursor_seek (start n) d;
  }

  -- the range of an opened file
  unfoldable pub cat_opened : (ℕ → ℕ) → ℕ → Option Offset → Option Offset → OpenedFile R I → Cat
  cat_opened sizes fuel first last (encoded f) = cat_open encoded_file sizes fuel first last f
  cat_opened sizes fuel first last (whole d) = cat_open whole_file sizes fuel first last d

  -- Opened at its start, the file shows the bytes.
  pub data Opens (full : Bytes) : OpenedFile R I → Type 0 where
    encoding :
        {f : EncodedDbFile R I} (info : I.FileInfo)
        → Refines f (readable full info)
        → Opens full (encoded f)
    cursor : (info : I.FileInfo) → Opens full (whole (readable full info))

  abbrev standing : Bytes → I.FileInfo → ℕ → DbFile I.FileInfo
  standing full info position = record {
    contents = full;
    position = position;
    info = info;
    writable = false;
  }

  agreed : (a : Io ℕ) (to : ℕ) → Agrees a (Io.done to) → a ≡ Io.done to
  agreed (Io.done n) to h = ap Io.done h
  agreed (Io.failed e) to h = absurd h
  agreed Io.panicked to h = absurd h

  encoded-ReadsAs :
      (full : Bytes) (info : I.FileInfo) → length full < u64_max → ReadsAs encoded_file full
  unfolding cursor_read cursor_seek cursor_target
  encoded-ReadsAs full info small = record {
    Stands = λ f position. Refines f (standing full info position);
    reads = λ size position f h. read-Refines size f (standing full info position) h small;
    seeks = λ to position f h.
        let (a, h') = seek-Refines (start to) f (standing full info position) h in
        (agreed _ to a, h');
  }

  cursor-ReadsAs : (full : Bytes) (info : I.FileInfo) → ReadsAs whole_file full
  unfolding cursor_read cursor_seek cursor_target
  cursor-ReadsAs full info = record {
    Stands = λ d position. d ≡ standing full info position;
    reads = λ size position d h. rw h (refl, refl);
    seeks = λ to position d h. rw h (refl, refl);
  }

  opened_lem :
      (sizes : ℕ → ℕ) (fuel : ℕ) (first last : Option Offset) (full : Bytes) (file : OpenedFile R I)
      → Opens full file
      → length full < u64_max
      → length full < fuel
      → cat_opened sizes fuel first last file
        ≡ finished (
            ok (
              take
                (python_index (length full) (length full) last - python_index (length full) 0 first)
                (drop (python_index (length full) 0 first) full)))
  unfolding cat_opened readable encoded-ReadsAs cursor-ReadsAs
  opened_lem sizes fuel first last full _ (encoding {f = f} info h) small l =
      cat_open-slice encoded_file sizes full (encoded-ReadsAs full info small) fuel first last f h l
  opened_lem sizes fuel first last full _ (cursor info) small l =
      cat_open-slice whole_file sizes full (cursor-ReadsAs full info) fuel first last _ refl l

  module _ (debug : Text → Text) (p : SqlParser) (db : Database R) where
    -- `cat_file_db`
    unfoldable pub cat_file_db : (ℕ → ℕ) → ℕ → Text → Option Offset → Option Offset → Cat
    cat_file_db sizes fuel path first last = elim (open_read debug I p db path) [
      | err e ↦ finished (err e)
      | ok file ↦ cat_opened sizes fuel first last file
    ]

    -- Where the path opens as a file that shows some bytes, fewer than 2^64 - 1 and than the fuel, reading
    -- a range of it gives the slice `bytes[first:last]` of Python: an index below 0 counts from the end,
    -- and one that is missing or out of range stands for the nearest end.
    pub cat_file_db-slice :
        (sizes : ℕ → ℕ) (fuel : ℕ) (path : Text) (first last : Option Offset) (full : Bytes)
        (file : OpenedFile R I)
        → open_read debug I p db path ≡ ok file
        → Opens full file
        → length full < u64_max
        → length full < fuel
        → cat_file_db sizes fuel path first last
          ≡ finished (
              ok (
                take
                  (python_index (length full) (length full) last
                    - python_index (length full) 0 first)
                  (drop (python_index (length full) 0 first) full)))
    unfolding cat_file_db
    cat_file_db-slice sizes fuel path first last full file opened opens small l =
        rw (opened, cat_file_db) (opened_lem sizes fuel first last full file opens small l)
