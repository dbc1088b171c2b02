-- ===== src/Stream/Tests.antt =====
-- Streams over a codec that brackets the batches' bytes, and the theorems about them.
use fsspec_db.Prelude.{ℕ, ◌≡◌, refl, true, false, some, none, List, [], ◌∷◌, arith}
use fsspec_db.Prelude.Text.{Text, codes}
use fsspec_db.Error.{ok, InterchangeError}
use fsspec_db.Path.Defs.{DataFormat}
use fsspec_db.Stream.Codec.{Bytes, Interchange, Written, Item, Registry, InfoOps, Io}
use fsspec_db.Stream.Defs.{
  at, before, end, EncodedDbFile, drain_sink, write_item, is_filled, fill_loop, fill_until,
  open_file, interchange_format, read_emitted, read, seek, size,
}
use fsspec_db.Stream.Cursor.{DbFile, readable, cursor_read, cursor_seek, file_size}
use fsspec_db.Stream.Fill.{encode_rest, pending, complete}
use fsspec_db.Stream.Refines.{Refines, read-Refines, seek-Refines, Agrees}
use fsspec_db.Stream.Open.{encoding, open_file-Refines, size_lem}
use fsspec_db.Stream.Safety.{Kept, read-Kept, seek-Kept}

-- A batch is its bytes, an empty one cannot be written.
abbrev pub write_bracketed : Bytes → Unit {0} → Written (Unit {0})
write_bracketed [] w = record {
  failure = some (InterchangeError.other (codes "empty"));
  writer = tt;
  bytes = [];
}
write_bracketed (b ∷ bytes) w = record { failure = none; writer = tt; bytes = b ∷ bytes }

abbrev pub brackets : Registry
brackets = record {
  Schema = Unit;
  Batch = Bytes;
  Codec = Unit;
  Writer = Unit;
  find = λ f. Interchange.done tt;
  start_owned_writer =
      λ c s. Interchange.done (record { failure = none; writer = tt; bytes = 40 ∷ [] });
  write_batch = write_bracketed;
  finish = λ w. record { failure = none; writer = tt; bytes = 41 ∷ [] };
}

-- a file's information as its name and its size
abbrev pub named : InfoOps
named = record {
  FileInfo = Text × ℕ;
  directory = λ n. (n, 0);
  file = λ n size. (n, size);
  name = λ i. i.0;
  set_size = λ size i. (i.0, size);
  insert_extra = λ k v i. i;
}

abbrev pub info : Text × ℕ
info = (codes "/main/data.csv", 0)

abbrev pub items : List (Item Bytes)
items = Item.batch (1 ∷ 2 ∷ []) ∷ Item.batch (3 ∷ []) ∷ []

-- as it is opened: the start is emitted, no batch is read
abbrev opened : EncodedDbFile brackets named
opened = record {
  reader = items;
  writer = some tt;
  sink = [];
  emitted = 40 ∷ [];
  position = 0;
  info = info;
  eof = false;
}

abbrev whole : DbFile (Text × ℕ)
whole = record { contents = 40 ∷ 1 ∷ 2 ∷ 3 ∷ 41 ∷ []; position = 0; info = info; writable = false }

-- the first chunk needs only the first batch, as in the unit test
reads_one_batch : read 2 opened ≡ (
  Io.done (40 ∷ 1 ∷ []),
  record opened { reader = Item.batch (3 ∷ []) ∷ []; emitted = 40 ∷ 1 ∷ 2 ∷ []; position = 2 },
)
unfolding read fill_until fill_loop is_filled write_item drain_sink read_emitted
reads_one_batch = refl

opened-Refines : Refines opened whole
unfolding encode_rest
opened-Refines = record {
  shows = pending tt (1 ∷ 2 ∷ 3 ∷ 41 ∷ []) refl refl refl refl refl;
  position = refl;
}

read-Refines_example :
    ((read 2 opened).0 ≡ (cursor_read 2 whole).0)
    × Refines (read 2 opened).1 (cursor_read 2 whole).1
read-Refines_example = read-Refines 2 opened whole opened-Refines (omega arith)

seek-Refines_example :
    Agrees (seek (end (before 1)) opened).0 (cursor_seek (end (before 1)) whole).0
    × Refines (seek (end (before 1)) opened).1 (cursor_seek (end (before 1)) whole).1
seek-Refines_example = seek-Refines (end (before 1)) opened whole opened-Refines

encoded_items : encoding brackets tt items DataFormat.csv ≡ some whole.contents
unfolding encoding interchange_format encode_rest
encoded_items = refl

open_file-Refines_example :
    (f : EncodedDbFile brackets named) × (open_file tt items DataFormat.csv info ≡ ok f)
    × Refines f (readable whole.contents info)
open_file-Refines_example =
    open_file-Refines tt items DataFormat.csv info whole.contents encoded_items

abbrev read_out : EncodedDbFile brackets named
read_out = record opened { reader = []; writer = none; emitted = whole.contents; eof = true }

size_lem_example : file_size whole ≡ some 5
unfolding size
size_lem_example =
    size_lem read_out whole 5 (record { shows = complete refl refl refl; position = refl }) refl

-- a file whose second batch cannot be written
abbrev failing : EncodedDbFile brackets named
failing = record opened { reader = Item.batch (1 ∷ []) ∷ Item.batch [] ∷ [] }

read-Kept_example : Kept failing.emitted (read 9 failing)
read-Kept_example = read-Kept 9 failing (λ h. cc)

seek-Kept_example : Kept failing.emitted (seek (end (at 0)) failing)
seek-Kept_example = seek-Kept (end (at 0)) failing (λ h. cc)
