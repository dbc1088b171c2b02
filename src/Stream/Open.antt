-- ===== src/Stream/Open.antt =====
-- Opening a file: which bytes it shows, and what it says about its size.
use fsspec_db.Prelude.{
  ℕ, ◌≡◌, refl, false, Option, none, some, List, [], ◌++◌, ◌⊎◌, Bool-cases, arith, Option-cases,
  inl, inr,
}
use fsspec_db.Error.{DbError, InterchangeError, Result, ok, err}
use fsspec_db.Path.Defs.{DataFormat}
use fsspec_db.Stream.Codec.{Bytes, InterchangeFormat, Interchange, Written, Item, Registry, InfoOps}
use fsspec_db.Stream.Defs.{EncodedDbFile, interchange_format, drain_sink, open_file, size}
use fsspec_db.Stream.Cursor.{DbFile, readable, file_size}
use fsspec_db.Stream.Fill.{encode_rest, prepend, pending}
use fsspec_db.Stream.Refines.{Refines, Shows-eof}

module _ (R : Registry) where
  -- The whole encoding of the reader's items: what the writer writes as it starts, for every batch,
  -- and as it finishes. Nothing if the format has no codec or something breaks.
  unfoldable pub encoding : R.Schema → List (Item R.Batch) → DataFormat → Option Bytes
  encoding schema reader format = elim (interchange_format format) [
    | err e ↦ none
    | ok f ↦ elim (R.find f) [
      | Interchange.failed e ↦ none
      | Interchange.done codec ↦ elim (R.start_owned_writer codec schema) [
        | Interchange.failed e ↦ none
        | Interchange.done out ↦ prepend out.bytes (encode_rest R reader out.writer)
      ]
    ]
  ]

pub Result-cases :
    {A : Type 0} (m : Result A) → ((e : DbError) × (m ≡ err e)) ⊎ ((a : A) × (m ≡ ok a))
Result-cases (ok a) = inr (a, refl)
Result-cases (err e) = inl (e, refl)

Interchange-cases :
    {A : Type 0} (m : Interchange A)
    → ((e : InterchangeError) × (m ≡ Interchange.failed e)) ⊎ ((a : A) × (m ≡ Interchange.done a))
Interchange-cases (Interchange.done a) = inr (a, refl)
Interchange-cases (Interchange.failed e) = inl (e, refl)

-- The three calls that the encoding stands on succeed.
record Started (R : Registry) (schema : R.Schema) (reader : List (Item R.Batch))
    (format : DataFormat) (full : Bytes) : Type 0 where
  interchange : InterchangeFormat
  codec : R.Codec
  out : Written R.Writer
  rest : Bytes
  has_format : interchange_format format ≡ ok interchange
  has_codec : R.find interchange ≡ Interchange.done codec
  has_writer : R.start_owned_writer codec schema ≡ Interchange.done out
  has_rest : encode_rest R reader out.writer ≡ some rest
  whole : out.bytes ++ rest ≡ full

started :
    (R : Registry) (schema : R.Schema) (reader : List (Item R.Batch)) (format : DataFormat)
    (full : Bytes)
    → encoding R schema reader format ≡ some full
    → Started R schema reader format full
unfolding encoding
started R schema reader format full h = elim (Result-cases (interchange_format format)) [
  | inl (e, p) ↦ absurd (ground arith)
  | inr (i, p) ↦ elim (Interchange-cases (R.find i)) [
    | inl (e, q) ↦ absurd (ground arith)
    | inr (c, q) ↦ elim (Interchange-cases (R.start_owned_writer c schema)) [
      | inl (e, r) ↦ absurd (ground arith)
      | inr (o, r) ↦ elim (Option-cases (encode_rest R reader o.writer)) [
        | inl n ↦ absurd (ground arith)
        | inr (rest, n) ↦ record {
          interchange = i;
          codec = c;
          out = o;
          rest = rest;
          has_format = p;
          has_codec = q;
          has_writer = r;
          has_rest = n;
          whole = ground arith;
        }
      ]
    ]
  ]
]

module _ {R : Registry} {I : InfoOps} where
  -- Where the whole encoding exists, opening the file succeeds, and the file is the cursor at the
  -- start of that encoding.
  pub open_file-Refines :
      (schema : R.Schema) (reader : List (Item R.Batch)) (format : DataFormat) (info : I.FileInfo)
      (full : Bytes)
      → encoding R schema reader format ≡ some full
      → (f : EncodedDbFile R I) × (open_file {I = I} schema reader format info ≡ ok f)
        × Refines f (readable full info)
  unfolding open_file drain_sink readable
  open_file-Refines schema reader format info full h =
      let s = started R schema reader format full h in
      (
        record {
          reader = reader;
          writer = some s.out.writer;
          sink = [];
          emitted = s.out.bytes;
          position = 0;
          info = info;
          eof = false;
        },
        rw (s.has_format) (rw s.has_codec (rw s.has_writer)),
        record {
          shows = pending s.out.writer s.rest refl refl refl s.has_rest s.whole;
          position = refl;
        },
      )

  -- A size that a file gives, whose whole encoding exists, is that of the whole encoding.
  pub size_lem :
      (f : EncodedDbFile R I) (d : DbFile I.FileInfo) (n : ℕ)
      → Refines f d
      → size f ≡ some n
      → file_size d ≡ some n
  unfolding size file_size
  size_lem f d n r h = elim (Bool-cases f.eof) [
    | inl t ↦ let whole = Shows-eof f d.contents r.shows t in ground arith
    | inr t ↦ absurd (ground arith)
  ]
