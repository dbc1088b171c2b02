-- ===== src/Fs/Codec.antt =====
-- rust/src/codec.rs: whole readers encoded, and bytes decoded, by the codecs of `fsspec_data`.
use fsspec_db.Prelude.{ℕ, ◌^◌, ◌-◌, Option, none, some, List, [], ◌∷◌, ◌++◌, map}
use fsspec_db.Prelude.Text.{Text, codes}
use fsspec_db.Error.{DbError, InterchangeError, Result, ok, err, ◌>>=◌}
use fsspec_db.Path.Defs.{DataFormat}
use fsspec_db.Stream.Codec.{Bytes, InterchangeFormat, Interchange, lift, Item, Registry}

-- An item of a decoded stream, or of a reader as a codec takes it.
abbrev pub DecodedItem : Type 0 → Type 0
DecodedItem Batch = Interchange Batch

-- `StreamOptions`: the size of the batches, or the default one
abbrev pub BatchSize : Type 0
BatchSize = Option ℕ

-- `Codec::encode_stream` and `Codec::decode_stream` of a registry
pub record Codecs (R : Registry) : Type 1 where
  pub encode_stream : R.Codec → R.Schema → List (DecodedItem R.Batch) → Interchange Bytes
  pub decode_stream :
      R.Codec
      → Bytes
      → Option R.Schema
      → BatchSize
      → Interchange (R.Schema × List (DecodedItem R.Batch))
  pub schema_of : R.Batch → R.Schema
  pub empty_schema : R.Schema
  -- `err.to_string()` of an `InterchangeError` that is not one of Arrow
  pub external : InterchangeError → Text

-- `InterchangeError::from` an `ArrowError`
abbrev pub of_item : {Batch : Type 0} → Item Batch → DecodedItem Batch
of_item (Item.batch b) = Interchange.done b
of_item (Item.broken e) = Interchange.failed (InterchangeError.arrow e)

-- `reader.schema()` and the items
abbrev pub Stream : Registry → Type 0
Stream R = R.Schema × List (Item R.Batch)

module _ {R : Registry} (K : Codecs R) where
  abbrev first_schema : List R.Batch → R.Schema
  first_schema [] = K.empty_schema
  first_schema (b ∷ batches) = K.schema_of b

  unfoldable pub rows_to_arrow : List R.Batch → Result (Stream R)
  rows_to_arrow batches = ok (first_schema batches, map Item.batch batches)

  unfoldable pub encode_with_interchange : Stream R → InterchangeFormat → Result Bytes
  encode_with_interchange reader format = do
    codec ← lift (R.find format)
    lift (K.encode_stream codec reader.0 (map of_item reader.1))

  unfoldable pub interchange_to_arrow : InterchangeError → Text
  interchange_to_arrow (InterchangeError.arrow e) = e
  interchange_to_arrow (InterchangeError.parquet e) =
      codes "External error: " ++ K.external (InterchangeError.parquet e)
  interchange_to_arrow (InterchangeError.other e) =
      codes "External error: " ++ K.external (InterchangeError.other e)

  abbrev to_item : DecodedItem R.Batch → Item R.Batch
  to_item (Interchange.done b) = Item.batch b
  to_item (Interchange.failed e) = Item.broken (interchange_to_arrow e)

  -- an IPC stream keeps its batches as they are
  abbrev stream_options : InterchangeFormat → BatchSize
  stream_options InterchangeFormat.arrow = some (2 ^ 64 - 1)
  stream_options _ = none

  unfoldable pub decode_with_interchange :
      Bytes → InterchangeFormat → Option R.Schema → Result (Stream R)
  decode_with_interchange bytes format schema = do
    codec ← lift (R.find format)
    stream ← lift (K.decode_stream codec bytes schema (stream_options format))
    ok (stream.0, map to_item stream.1)

  unfoldable pub format_reader : Stream R → DataFormat → Result Bytes
  format_reader reader DataFormat.parquet = encode_with_interchange reader InterchangeFormat.parquet
  format_reader reader DataFormat.arrow = encode_with_interchange reader InterchangeFormat.arrow
  format_reader reader DataFormat.csv = encode_with_interchange reader InterchangeFormat.csv
  format_reader reader DataFormat.jsonl =
      encode_with_interchange reader InterchangeFormat.json_lines
  format_reader reader DataFormat.sql =
      err (DbError.not_supported (codes "SQL DDL encoding is handled by DatabaseFs"))

  unfoldable pub parquet_to_arrow : Bytes → Result (Stream R)
  parquet_to_arrow bytes = decode_with_interchange bytes InterchangeFormat.parquet none

  unfoldable pub ipc_to_arrow : Bytes → Result (Stream R)
  ipc_to_arrow bytes = decode_with_interchange bytes InterchangeFormat.arrow none

  unfoldable pub csv_to_arrow : Bytes → R.Schema → Result (Stream R)
  csv_to_arrow bytes schema = decode_with_interchange bytes InterchangeFormat.csv (some schema)

  unfoldable pub jsonl_to_arrow : Bytes → R.Schema → Result (Stream R)
  jsonl_to_arrow bytes schema =
      decode_with_interchange bytes InterchangeFormat.json_lines (some schema)
