-- ===== src/Stream/Codec.antt =====
-- What the streams take of other crates: the interchange codecs of `fsspec_data`, the batches of
-- Arrow and the file information of `fsspec_rs`.
use fsspec_db.Prelude.{ℕ, Option, List}
use fsspec_db.Prelude.Text.{Text}
use fsspec_db.Error.{IoError, InterchangeError, Result, ok, err, from_interchange}

abbrev pub Bytes : Type 0
Bytes = List ℕ

-- `fsspec_data::DataFormat`
pub data InterchangeFormat : Type 0 where
  parquet arrow csv json_lines : InterchangeFormat

-- `std::result::Result<A, InterchangeError>`
pub data Interchange (A : Type 0) : Type 0 where
  done : A → Interchange A
  failed : InterchangeError → Interchange A

-- `?` where the function returns a `DbError`
abbrev pub lift : {A : Type 0} → Interchange A → Result A
lift (done a) = ok a
lift (failed e) = err (from_interchange e)

-- What a call of a writer leaves: its failure, if it failed, the writer, and the bytes that it has
-- written into its sink meanwhile, also when it failed.
pub record Written (W : Type 0) : Type 0 where
  pub failure : Option InterchangeError
  pub writer : W
  pub bytes : Bytes

-- An item of a `RecordBatchReader`: a batch, or an `ArrowError` by the text it displays as.
pub data Item (Batch : Type 0) : Type 0 where
  batch : Batch → Item Batch
  broken : Text → Item Batch

-- `DEFAULT_REGISTRY`, `Codec` and `CodecWriter`. `finish` consumes the writer.
pub record Registry : Type 1 where
  pub Schema : Type 0
  pub Batch : Type 0
  pub Codec : Type 0
  pub Writer : Type 0
  pub find : InterchangeFormat → Interchange Codec
  pub start_owned_writer : Codec → Schema → Interchange (Written Writer)
  pub write_batch : Batch → Writer → Written Writer
  pub finish : Writer → Written Unit

-- `FileInfo`: its constructors, the name, and the two changes the crate makes to one
pub record InfoOps : Type 1 where
  pub FileInfo : Type 0
  pub directory : Text → FileInfo
  pub file : Text → ℕ → FileInfo
  pub name : FileInfo → Text
  pub set_size : ℕ → FileInfo → FileInfo
  pub insert_extra : Text → Text → FileInfo → FileInfo

-- What an operation on a file gives; a call of `unwrap` on `None` panics.
pub data Io (A : Type 0) : Type 0 where
  done : A → Io A
  failed : IoError → Io A
  panicked : Io A
