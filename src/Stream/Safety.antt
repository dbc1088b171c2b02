-- ===== src/Stream/Safety.antt =====
-- Whatever fails: no operation on a file panics, and no byte that a file has shown changes.
use fsspec_db.Prelude.{
  ℕ, ◌≡◌, refl, sym, ap, ◌∙◌, ◌≢◌, inl, inr, Option, none, some, List, [], ◌∷◌, ◌++◌, append_assoc,
  append-nil, length, ◌==◌, leb, arith, Bool-cases, Option-cases,
}
use fsspec_db.Stream.Codec.{Bytes, Item, Registry, InfoOps, Io}
use fsspec_db.Stream.Defs.{
  SeekFrom, Offset, at, before, start, current, end, EncodedDbFile, drain_sink, write_item,
  finish_file, is_filled, fill_loop, fill_until, read_emitted, read_target, read, move_to, seek,
  seek_position, offset_position,
}

offset_position-no_panic :
    (position : ℕ) (offset : Offset) → offset_position position offset ≢ Io.panicked
unfolding offset_position
offset_position-no_panic position (at n) h = ground arith
offset_position-no_panic position (before n) h = ground arith

module _ {R : Registry} {I : InfoOps} where
  -- The writer is only gone once the reader has been read to its end.
  abbrev pub IsSound : EncodedDbFile R I → Type 0
  IsSound f = f.writer ≡ none → f.reader ≡ []

  -- An outcome that is no panic, on a sound file that has emitted more than `before`, which is still
  -- at its front.
  pub record Kept {A : Type 0} (before : Bytes) (out : Io A × EncodedDbFile R I) : Type 0 where
    pub sound : IsSound out.1
    pub no_panic : out.0 ≢ Io.panicked
    pub more : Bytes
    pub grown : out.1.emitted ≡ before ++ more

  stay :
      {A : Type 0} (g : EncodedDbFile R I) (result : Io A)
      → IsSound g
      → result ≢ Io.panicked
      → Kept g.emitted (result, g)
  stay g result s n = record {
    sound = s;
    no_panic = n;
    more = [];
    grown = sym (append-nil g.emitted);
  }

  Kept-after :
      {A B : Type 0} (xs : Bytes) (out : Io A × EncodedDbFile R I) (out' : Io B × EncodedDbFile R I)
      → Kept xs out
      → Kept out.1.emitted out'
      → Kept xs out'
  Kept-after xs out out' p k = record {
    sound = k.sound;
    no_panic = k.no_panic;
    more = p.more ++ k.more;
    grown = k.grown ∙ (ap (λ ys. ys ++ k.more) p.grown ∙ append_assoc xs p.more k.more);
  }

  -- `?` between two operations on a file
  abbrev chain :
      {A B : Type 0}
      → Io A × EncodedDbFile R I
      → (A → EncodedDbFile R I → Io B × EncodedDbFile R I)
      → Io B × EncodedDbFile R I
  chain out next = elim out.0 [
    | Io.done a ↦ next a out.1
    | Io.failed e ↦ (Io.failed e, out.1)
    | Io.panicked ↦ (Io.panicked, out.1)
  ]

  chain-Kept :
      {A B : Type 0} (xs : Bytes) (result : Io A) (g : EncodedDbFile R I)
      (next : A → EncodedDbFile R I → Io B × EncodedDbFile R I)
      → Kept xs (result, g)
      → ((a : A) → Kept g.emitted (next a g))
      → Kept xs (chain (result, g) next)
  chain-Kept xs (Io.done a) g next k n = Kept-after xs (Io.done a, g) (next a g) k (n a)
  chain-Kept xs (Io.failed e) g next k n = record {
    sound = k.sound;
    no_panic = λ h. cc;
    more = k.more;
    grown = k.grown;
  }
  chain-Kept xs Io.panicked g next k n = absurd (k.no_panic refl)

  finish_file-Kept : (f : EncodedDbFile R I) → f.reader ≡ [] → Kept f.emitted (finish_file f)
  unfolding finish_file drain_sink
  finish_file-Kept f r = elim (Option-cases f.writer) [
    | inl w ↦
        rw (w, finish_file)
          (record { sound = λ h. r; no_panic = λ h. cc; more = f.sink; grown = refl })
    | inr (w, p) ↦ elim (Option-cases (R.finish w).failure) [
      | inl n ↦
          rw (p, finish_file)
            (rw (n, finish_file)
              (record {
                sound = λ h. r;
                no_panic = λ h. cc;
                more = f.sink ++ (R.finish w).bytes;
                grown = refl;
              }))
      | inr (c, n) ↦ rw (p, finish_file) (rw (n, finish_file) (stay _ _ (λ h. r) (λ h. cc)))
    ]
  ]

  -- One batch, for a file whose writer is there.
  write_item-Kept :
      (b : R.Batch) (f : EncodedDbFile R I) (w : R.Writer)
      → f.writer ≡ some w
      → Kept f.emitted (write_item b f)
  unfolding write_item drain_sink
  write_item-Kept b f w p = elim (Option-cases (R.write_batch b w).failure) [
    | inl n ↦
        rw (p, write_item)
          (rw (n, write_item)
            (record {
              sound = λ h. cc;
              no_panic = λ h. cc;
              more = f.sink ++ (R.write_batch b w).bytes;
              grown = refl;
            }))
    | inr (c, n) ↦ rw (p, write_item) (rw (n, write_item) (stay _ _ (λ h. cc) (λ h. cc)))
  ]

  unread :
      (i : Item R.Batch) (more : List (Item R.Batch)) (f : EncodedDbFile R I)
      → f.reader ≡ i ∷ more
      → f.reader ≡ []
      → ⊥
  unread i more f p q = cc

  write_item-reader : (b : R.Batch) (f : EncodedDbFile R I) → (write_item b f).1.reader ≡ f.reader
  unfolding write_item drain_sink
  write_item-reader b f = elim (Option-cases f.writer) [
    | inl n ↦ rw (n, write_item) refl
    | inr (w, p) ↦ elim (Option-cases (R.write_batch b w).failure) [
      | inl n ↦ rw (p, write_item) (rw (n, write_item) refl)
      | inr (c, n) ↦ rw (p, write_item) (rw (n, write_item) refl)
    ]
  ]

  fill_loop-Kept :
      (target : Option ℕ) (reader : List (Item R.Batch)) (f : EncodedDbFile R I)
      → f.reader ≡ reader
      → IsSound f
      → Kept f.emitted (fill_loop target reader f)
  unfolding fill_loop
  fill_loop-Kept target [] f r s = elim (Bool-cases (is_filled target f)) [
    | inl stop ↦ rw stop (stay f _ s (λ h. cc))
    | inr go_on ↦ rw go_on (finish_file-Kept f r)
  ]
  fill_loop-Kept target (Item.broken e ∷ more) f r s = elim (Bool-cases (is_filled target f)) [
    | inl stop ↦ rw stop (stay f _ s (λ h. cc))
    | inr go_on ↦ rw go_on (
        stay (record f { reader = more }) _ (λ h. absurd (unread (Item.broken e) more f r (s h)))
          (λ h. cc))
  ]
  fill_loop-Kept target (Item.batch b ∷ more) f r s = elim (Bool-cases (is_filled target f)) [
    | inl stop ↦ rw stop (stay f _ s (λ h. cc))
    | inr go_on ↦ elim (Option-cases f.writer) [
      | inl n ↦ absurd (unread (Item.batch b) more f r (s n))
      | inr (w, p) ↦
          let step = write_item-Kept b (record f { reader = more }) w p in
          let out = write_item b (record f { reader = more }) in
          rw go_on (
            chain-Kept f.emitted out.0 out.1 (λ _ g. fill_loop target more g) step
              (λ _.
                fill_loop-Kept target more out.1 (write_item-reader b (record f { reader = more }))
                  step.sound))
    ]
  ]

  pub fill_until-Kept :
      (target : Option ℕ) (f : EncodedDbFile R I) → IsSound f → Kept f.emitted (fill_until target f)
  unfolding fill_until
  fill_until-Kept target f s = fill_loop-Kept target f.reader f refl s

  read_emitted-Kept :
      (size : ℕ) (f : EncodedDbFile R I)
      → IsSound f
      → Kept f.emitted (Io.done (read_emitted size f).0, (read_emitted size f).1)
  unfolding read_emitted
  read_emitted-Kept size f s = elim (Bool-cases (leb (length f.emitted) f.position)) [
    | inl past ↦ rw past (stay f _ s (λ h. cc))
    | inr here ↦ rw here (stay _ _ s (λ h. cc))
  ]

  -- Reading a file whose writer is only gone at the end of the reader leaves it so, never panics and only adds to what the file has emitted, also where it fails.
  pub read-Kept : (size : ℕ) (f : EncodedDbFile R I) → IsSound f → Kept f.emitted (read size f)
  unfolding read
  read-Kept size f s = elim (Bool-cases (size == 0)) [
    | inl none_asked ↦ rw none_asked (stay f _ s (λ h. cc))
    | inr some_asked ↦
        let target = some (read_target f.position size) in
        let filled = fill_until-Kept target f s in
        let out = fill_until target f in
        rw some_asked (
          chain-Kept f.emitted out.0 out.1
            (λ _ g. (Io.done (read_emitted size g).0, (read_emitted size g).1)) filled
            (λ _. read_emitted-Kept size out.1 filled.sound))
  ]

  move_to-Kept :
      (position : ℕ) (f : EncodedDbFile R I) → IsSound f → Kept f.emitted (move_to position f)
  unfolding move_to
  move_to-Kept position f s =
      let filled = fill_until-Kept (some position) f s in
      let out = fill_until (some position) f in
      chain-Kept f.emitted out.0 out.1 (λ _ g. (Io.done position, record g { position = position }))
        filled (λ _. stay (record out.1 { position = position }) _ filled.sound (λ h. cc))

  seek_position-Kept :
      (pos : SeekFrom) (f : EncodedDbFile R I) → IsSound f → Kept f.emitted (seek_position pos f)
  unfolding seek_position
  seek_position-Kept (start position) f s = stay f _ s (λ h. cc)
  seek_position-Kept (current offset) f s = stay f _ s (offset_position-no_panic f.position offset)
  seek_position-Kept (end offset) f s =
      let filled = fill_until-Kept none f s in
      let out = fill_until none f in
      chain-Kept f.emitted out.0 out.1 (λ _ g. (offset_position (length g.emitted) offset, g))
        filled
        (λ _. stay out.1 _ filled.sound (offset_position-no_panic (length out.1.emitted) offset))

  -- Seeking in a file whose writer is only gone at the end of the reader leaves it so, never panics and only adds to what the file has emitted, also where it fails.
  pub seek-Kept : (pos : SeekFrom) (f : EncodedDbFile R I) → IsSound f → Kept f.emitted (seek pos f)
  unfolding seek
  seek-Kept pos f s =
      let found = seek_position-Kept pos f s in
      let out = seek_position pos f in
      chain-Kept f.emitted out.0 out.1 move_to found
        (λ position. move_to-Kept position out.1 found.sound)
