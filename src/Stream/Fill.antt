-- ===== src/Stream/Fill.antt =====
-- Filling the buffer of a file: what the loop keeps, also when it fails, and what it reaches.
use fsspec_db.Prelude.{
  ℕ, ◌≡◌, refl, sym, ap, ◌∙◌, inl, inr, true, false, Option, none, some, List, [], ◌∷◌, ◌++◌,
  append_assoc, arith, Bool-cases, Option-cases,
}
use fsspec_db.Prelude.Text.{Text}
use fsspec_db.Stream.Codec.{Bytes, Written, Item, Registry, InfoOps, Io}
use fsspec_db.Stream.Defs.{
  EncodedDbFile, drain_sink, write_item, finish_file, is_filled, fill_loop, fill_until,
}

abbrev pub prepend : Bytes → Option Bytes → Option Bytes
prepend bytes none = none
prepend bytes (some rest) = some (bytes ++ rest)

-- The bytes of a writer's call, if it succeeded.
abbrev pub written : {W : Type 0} → Written W → Option Bytes
written out = elim out.failure [ none ↦ some out.bytes | some e ↦ none ]

module _ (R : Registry) where
  -- What a writer still writes for the items of a reader and for the end; nothing if an item is
  -- broken or the writer fails.
  unfoldable pub encode_rest : List (Item R.Batch) → R.Writer → Option Bytes
  encode_rest [] w = written (R.finish w)
  encode_rest (Item.broken e ∷ rest) w = none
  encode_rest (Item.batch b ∷ rest) w =
      let more = encode_rest rest (R.write_batch b w).writer in
      elim (R.write_batch b w).failure [
        | none ↦ prepend (R.write_batch b w).bytes more
        | some e ↦ none
      ]

  broken_rest :
      (c : Text) (more : List (Item R.Batch)) (w : R.Writer) {rest : Bytes}
      → encode_rest (Item.broken c ∷ more) w ≡ some rest
      → ⊥
  unfolding encode_rest
  broken_rest c more w h = cc

module _ {R : Registry} {I : InfoOps} where
  -- The file shows the bytes `full`: it has emitted all of them, or the rest is still to be encoded.
  pub data Shows (f : EncodedDbFile R I) (full : Bytes) : Type 0 where
    complete : f.eof ≡ true → f.emitted ≡ full → f.sink ≡ [] → Shows f full
    pending :
        (w : R.Writer) (rest : Bytes)
        → f.eof ≡ false
        → f.sink ≡ []
        → f.writer ≡ some w
        → encode_rest R f.reader w ≡ some rest
        → f.emitted ++ rest ≡ full
        → Shows f full

  -- The fill did what it was called for.
  pub record Filled (target : Option ℕ) (full : Bytes) (f : EncodedDbFile R I)
      (out : Io Unit × EncodedDbFile R I) : Type 0 where
    pub result : out.0 ≡ Io.done tt
    pub shows : Shows out.1 full
    pub reached : is_filled target out.1 ≡ true
    pub position : out.1.position ≡ f.position
    pub info : out.1.info ≡ f.info

  filled_eof :
      (target : Option ℕ) (f : EncodedDbFile R I) → f.eof ≡ true → is_filled target f ≡ true
  unfolding is_filled
  filled_eof none f h = h
  filled_eof (some target) f h = rw h

  finish_step :
      (full : Bytes) (f : EncodedDbFile R I) (w : R.Writer) (rest : Bytes)
      → f.sink ≡ []
      → f.writer ≡ some w
      → encode_rest R [] w ≡ some rest
      → f.emitted ++ rest ≡ full
      → finish_file f
        ≡ (Io.done tt, record f { writer = none; emitted = full; sink = []; eof = true })
  unfolding finish_file encode_rest drain_sink
  finish_step full f w rest s p e q = elim (Option-cases (R.finish w).failure) [
    | inl n ↦
        let bytes : (R.finish w).bytes ≡ rest = ground arith in
        rw (p, finish_file) (rw (n, finish_file) (rw (s, bytes, q)))
    | inr (c, n) ↦ absurd (ground arith)
  ]

  finish_lem :
      (target : Option ℕ) (full : Bytes) (f : EncodedDbFile R I) (w : R.Writer) (rest : Bytes)
      → f.sink ≡ []
      → f.writer ≡ some w
      → encode_rest R [] w ≡ some rest
      → f.emitted ++ rest ≡ full
      → Filled target full f (finish_file f)
  finish_lem target full f w rest s p e q = rw (finish_step full f w rest s p e q) (record {
    result = refl;
    shows = complete refl refl refl;
    reached = filled_eof target _ refl;
    position = refl;
    info = refl;
  })

  -- One batch: the file has emitted its bytes, and the writer goes on.
  write_step :
      (b : R.Batch) (more : List (Item R.Batch)) (full : Bytes) (f : EncodedDbFile R I)
      (w : R.Writer) (rest : Bytes)
      → f.sink ≡ []
      → f.writer ≡ some w
      → encode_rest R (Item.batch b ∷ more) w ≡ some rest
      → f.emitted ++ rest ≡ full
      → (w' : R.Writer) × (rest' : Bytes) × (write_item b f ≡ (
        Io.done tt,
        record f { writer = some w'; emitted = f.emitted ++ (R.write_batch b w).bytes; sink = [] },
      ))
        × (encode_rest R more w' ≡ some rest')
        × ((f.emitted ++ (R.write_batch b w).bytes) ++ rest' ≡ full)
  unfolding write_item encode_rest drain_sink
  write_step b more full f w rest s p e q = elim (Option-cases (R.write_batch b w).failure) [
    | inl n ↦ elim (Option-cases (encode_rest R more (R.write_batch b w).writer)) [
      | inl m ↦ absurd (ground arith)
      | inr (rest', m) ↦
          let split : rest ≡ (R.write_batch b w).bytes ++ rest' = ground arith in
          (
            (R.write_batch b w).writer,
            rest',
            rw (p, write_item) (rw (n, write_item) (rw s)),
            m,
            append_assoc f.emitted _ rest' ∙ (ap (λ xs. f.emitted ++ xs) (sym split) ∙ q),
          )
    ]
    | inr (c, n) ↦ absurd (ground arith)
  ]

  stop_lem :
      (target : Option ℕ) (full : Bytes) (f : EncodedDbFile R I) (w : R.Writer) (rest : Bytes)
      → is_filled target f ≡ true
      → f.eof ≡ false
      → f.sink ≡ []
      → f.writer ≡ some w
      → encode_rest R f.reader w ≡ some rest
      → f.emitted ++ rest ≡ full
      → Filled target full f (Io.done tt, f)
  stop_lem target full f w rest h t s p e q = record {
    result = refl;
    shows = pending w rest t s p e q;
    reached = h;
    position = refl;
    info = refl;
  }

  next_step :
      (target : Option ℕ) (b : R.Batch) (more : List (Item R.Batch)) (f after : EncodedDbFile R I)
      → is_filled target f ≡ false
      → write_item b (record f { reader = more }) ≡ (Io.done tt, after)
      → fill_loop target (Item.batch b ∷ more) f ≡ fill_loop target more after
  unfolding fill_loop
  next_step target b more f after h step = rw h (
      ap
        (λ (out : Io Unit × EncodedDbFile R I). elim out.0 [
          | Io.done _ ↦ fill_loop target more out.1
          | Io.failed e ↦ (Io.failed e, out.1)
          | Io.panicked ↦ (Io.panicked, out.1)
        ])
        step)

  -- Where nothing breaks, the loop gets as far as it was asked to.
  fill_loop_lem :
      (target : Option ℕ) (full : Bytes) (reader : List (Item R.Batch)) (f : EncodedDbFile R I)
      (w : R.Writer) (rest : Bytes)
      → f.reader ≡ reader
      → f.eof ≡ false
      → f.sink ≡ []
      → f.writer ≡ some w
      → encode_rest R reader w ≡ some rest
      → f.emitted ++ rest ≡ full
      → Filled target full f (fill_loop target reader f)
  unfolding fill_loop
  fill_loop_lem target full [] f w rest r t s p e q = elim (Bool-cases (is_filled target f)) [
    | inl stop ↦ rw stop (stop_lem target full f w rest stop t s p (rw r e) q)
    | inr go_on ↦ rw go_on (finish_lem target full f w rest s p e q)
  ]
  fill_loop_lem target full (Item.broken c ∷ more) f w rest r t s p e q =
      absurd (broken_rest R c more w e)
  fill_loop_lem target full (Item.batch b ∷ more) f w rest r t s p e q =
      elim (Bool-cases (is_filled target f)) [
        | inl stop ↦ rw stop (stop_lem target full f w rest stop t s p (rw r e) q)
        | inr go_on ↦
            let (w', rest', step, e', q') =
              write_step b more full (record f { reader = more }) w rest s p e q in
            let after = record f {
              reader = more;
              writer = some w';
              emitted = f.emitted ++ (R.write_batch b w).bytes;
              sink = [];
            } in
            let filled = fill_loop_lem target full more after w' rest' refl t refl refl e' q' in
            rw (next_step target b more f after go_on step) (record {
              result = filled.result;
              shows = filled.shows;
              reached = filled.reached;
              position = filled.position;
              info = filled.info;
            })
      ]

  fill_eof :
      (target : Option ℕ) (reader : List (Item R.Batch)) (f : EncodedDbFile R I)
      → f.eof ≡ true
      → fill_loop target reader f ≡ (Io.done tt, f)
  unfolding fill_loop
  fill_eof target [] f h = rw (filled_eof target f h)
  fill_eof target (Item.broken c ∷ more) f h = rw (filled_eof target f h)
  fill_eof target (Item.batch b ∷ more) f h = rw (filled_eof target f h)

  -- Filling a file that shows some bytes succeeds: the file shows the same bytes, and as many of
  -- them are there as were asked for.
  pub fill_until_lem :
      (target : Option ℕ) (full : Bytes) (f : EncodedDbFile R I)
      → Shows f full
      → Filled target full f (fill_until target f)
  unfolding fill_until
  fill_until_lem target full f (complete t p s) = rw (fill_eof target f.reader f t) (record {
    result = refl;
    shows = complete t p s;
    reached = filled_eof target f t;
    position = refl;
    info = refl;
  })
  fill_until_lem target full f (pending w rest t s p e q) =
      fill_loop_lem target full f.reader f w rest refl t s p e q
