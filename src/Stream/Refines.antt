-- ===== src/Stream/Refines.antt =====
-- A file that is encoded as it is read is, for whoever reads it, the file of the whole encoding: it
-- simulates the cursor over those bytes.
use fsspec_db.Prelude.{
  ℕ, zero, suc, ◌+◌, ◌-◌, ◌≤◌, ◌<◌, ◌≡◌, refl, sym, ap, subst, ◌∙◌, inl, inr, true, none, some, [],
  ◌∷◌, ◌++◌, append-nil, length, take, drop, ltb, leb, ◌==◌, arith, Bool-cases, min, length-append,
  length-take, length-drop, drop_all,
}
use fsspec_db.Prelude.Text.{codes}
use fsspec_db.Prelude.Decimal.{u64_max}
use fsspec_db.Error.{IoErrorKind, IoError}
use fsspec_db.Stream.Codec.{Bytes, Registry, InfoOps, Io}
use fsspec_db.Stream.Defs.{
  SeekFrom, Offset, at, before, start, current, end, EncodedDbFile, is_filled, fill_until,
  read_emitted, read_target, read, move_to, seek, seek_position, offset_position,
}
use fsspec_db.Stream.Cursor.{DbFile, cursor_read, checked_add_signed, cursor_target, cursor_seek}
use fsspec_db.Stream.Fill.{Shows, complete, pending, fill_until_lem}

-- A prefix that is long enough gives the same bytes.
take-drop-append :
    (count position : ℕ) (xs ys : Bytes)
    → position + count ≤ length xs
    → take count (drop position (xs ++ ys)) ≡ take count (drop position xs)
take-drop-append zero position xs ys h = refl
take-drop-append (suc count) zero [] ys h = absurd (omega arith)
take-drop-append (suc count) zero (x ∷ xs) ys h =
    ap (λ zs. x ∷ zs) (take-drop-append count zero xs ys (omega arith))
take-drop-append (suc count) (suc position) [] ys h = absurd (omega arith)
take-drop-append (suc count) (suc position) (x ∷ xs) ys h =
    take-drop-append (suc count) position xs ys (omega arith)

take-min : (n : ℕ) (xs : Bytes) → take (min n (length xs)) xs ≡ take n xs
take-min zero xs = let e : min 0 (length xs) ≡ 0 = omega arith in rw e
take-min (suc n) [] = let e : min (suc n) 0 ≡ 0 = omega arith in rw e
take-min (suc n) (x ∷ xs) =
    let e : min (suc n) (suc (length xs)) ≡ suc (min n (length xs)) = omega arith in
    rw e (ap (λ ys. x ∷ ys) (take-min n xs))

take_nil : (n : ℕ) → take {A = ℕ} n [] ≡ []
take_nil zero = refl
take_nil (suc n) = refl

-- The bytes that `read` copies out of a buffer.
read_bytes :
    (size position : ℕ) (xs : Bytes)
    → ltb position (length xs) ≡ true
    → take (min size (length xs - position)) (drop position xs) ≡ take size (drop position xs)
read_bytes size position xs h =
    rw (sym (length-drop position xs)) (take-min size (drop position xs))

-- The answers of the two seeks: the same position, or errors of the same kind.
abbrev pub Agrees : Io ℕ → Io ℕ → Type 0
Agrees (Io.done a) (Io.done b) = a ≡ b
Agrees (Io.failed e) (Io.failed e') = e.kind ≡ e'.kind
Agrees _ _ = ⊥

-- The two ways to add an offset to a position.
data Added (position : ℕ) (offset : Offset) : Type 0 where
  inside :
      (to : ℕ)
      → offset_position position offset ≡ Io.done to
      → checked_add_signed position offset ≡ some to
      → Added position offset
  outside :
      (e : IoError)
      → offset_position position offset ≡ Io.failed e
      → e.kind ≡ IoErrorKind.invalid_input
      → checked_add_signed position offset ≡ none
      → Added position offset

added : (position : ℕ) (offset : Offset) → Added position offset
unfolding offset_position checked_add_signed
added position (at n) = elim (Bool-cases (leb (position + n) u64_max)) [
  | inl h ↦ inside (position + n) (rw h) (rw h)
  | inr h ↦
      outside
        (record { kind = IoErrorKind.invalid_input; message = codes "seek position overflow" })
        (rw h) refl (rw h)
]
added position (before n) = elim (Bool-cases (leb (suc n) position)) [
  | inl h ↦ inside (position - suc n) (rw h) (rw h)
  | inr h ↦
      outside
        (record { kind = IoErrorKind.invalid_input; message = codes "negative seek position" })
        (rw h) refl (rw h)
]

module _ {R : Registry} {I : InfoOps} where
  -- The file and the cursor are over the same bytes, at the same position.
  pub record Refines (f : EncodedDbFile R I) (d : DbFile I.FileInfo) : Type 0 where
    pub shows : Shows f d.contents
    pub position : f.position ≡ d.position

  -- What has been emitted is the front of the bytes.
  Shows-emitted :
      (f : EncodedDbFile R I) (full : Bytes)
      → Shows f full
      → (rest : Bytes) × (f.emitted ++ rest ≡ full)
  Shows-emitted f full (complete t p s) = ([], append-nil f.emitted ∙ p)
  Shows-emitted f full (pending w rest t s p e q) = (rest, q)

  filled_none : (f : EncodedDbFile R I) → is_filled none f ≡ true → f.eof ≡ true
  unfolding is_filled
  filled_none f h = h

  pub Shows-eof :
      (f : EncodedDbFile R I) (full : Bytes) → Shows f full → f.eof ≡ true → f.emitted ≡ full
  Shows-eof f full (complete t p s) h = p
  Shows-eof f full (pending w rest t s p e q) h = cc

  move :
      (f : EncodedDbFile R I) (full : Bytes) (position : ℕ)
      → Shows f full
      → Shows (record f { position = position }) full
  move f full position (complete t p s) = complete t p s
  move f full position (pending w rest t s p e q) = pending w rest t s p e q

  same_bytes :
      (size : ℕ) (full : Bytes) (f : EncodedDbFile R I)
      → Shows f full
      → length full < u64_max
      → is_filled (some (read_target f.position size)) f ≡ true
      → take size (drop f.position full) ≡ take size (drop f.position f.emitted)
  unfolding is_filled
  same_bytes size full f s b h = elim (Bool-cases f.eof) [
    | inl t ↦ rw (Shows-eof f full s t)
    | inr t ↦
        let (rest, p) = Shows-emitted f full s in
        let bound : length f.emitted ≤ length full =
          rw (sym p, length-append f.emitted rest) (omega arith) in
        let enough : f.position + size ≤ length f.emitted = ground arith in
        rw (sym p) (take-drop-append size f.position f.emitted rest enough)
  ]

  -- What `read` copies out of a buffer that is filled as far as it is asked to.
  read_emitted_lem :
      (size : ℕ) (full : Bytes) (f : EncodedDbFile R I)
      → Shows f full
      → length full < u64_max
      → is_filled (some (read_target f.position size)) f ≡ true
      → ((read_emitted size f).0 ≡ take size (drop f.position full))
        × Shows (read_emitted size f).1 full
        × ((read_emitted size f).1.position
            ≡ f.position + length (take size (drop f.position full)))
  unfolding read_emitted
  read_emitted_lem size full f s b h = elim (Bool-cases (leb (length f.emitted) f.position)) [
    | inl past ↦
        let none_left : take size (drop f.position full) ≡ [] =
          same_bytes size full f s b h
          ∙ (rw (drop_all f.position f.emitted (ground arith)) (take_nil size)) in
        rw (past, none_left) (refl, s, omega arith)
    | inr here ↦
        let bytes : take (min size (length f.emitted - f.position)) (drop f.position f.emitted)
            ≡ take size (drop f.position full) =
          read_bytes size f.position f.emitted (ground arith)
          ∙ sym (same_bytes size full f s b h) in
        rw here (bytes, move f full _ s, rw (sym bytes, length-take, length-drop) (omega arith))
  ]

  -- Reading a file gives what reading the cursor over its whole encoding gives, however much of it
  -- has been encoded before, and leaves both at the same position, where the encoding succeeds and
  -- is shorter than 2^64 - 1 bytes.
  pub read-Refines :
      (size : ℕ) (f : EncodedDbFile R I) (d : DbFile I.FileInfo)
      → Refines f d
      → length d.contents < u64_max
      → ((read size f).0 ≡ (cursor_read size d).0) × Refines (read size f).1 (cursor_read size d).1
  unfolding read cursor_read
  read-Refines size f d r b = elim (Bool-cases (size == 0)) [
    | inl none_asked ↦
        let nothing : size ≡ 0 = ground arith in
        rw (none_asked, nothing)
          (refl, record { shows = r.shows; position = r.position ∙ omega arith })
    | inr some_asked ↦
        let filled = fill_until_lem (some (read_target f.position size)) d.contents f r.shows in
        let out = (fill_until (some (read_target f.position size)) f).1 in
        let at_target : is_filled (some (read_target out.position size)) out ≡ true =
          rw filled.position filled.reached in
        let (bytes, shows, moved) = read_emitted_lem size d.contents out filled.shows b at_target in
        let here : out.position ≡ d.position = filled.position ∙ r.position in
        rw (some_asked, filled.result, sym here)
          (rw bytes refl, record { shows = shows; position = moved })
  ]

  move_lem :
      (position : ℕ) (f : EncodedDbFile R I) (full : Bytes)
      → Shows f full
      → ((move_to position f).0 ≡ Io.done position)
        × Shows (move_to position f).1 full
        × ((move_to position f).1.position ≡ position)
  unfolding move_to
  move_lem position f full s =
      let filled = fill_until_lem (some position) full f s in
      rw (filled.result, move_to) (refl, move _ full position filled.shows, refl)

  -- What a seek to a position, found or not, leaves.
  abbrev pub Moved : Io ℕ × EncodedDbFile R I → Io ℕ × DbFile I.FileInfo → Type 0
  Moved out out' = Agrees out.0 out'.0 × Refines out.1 out'.1

  seek_inside :
      (pos : SeekFrom) (to : ℕ) (f : EncodedDbFile R I) (d : DbFile I.FileInfo)
      → (seek_position pos f).0 ≡ Io.done to
      → Shows (seek_position pos f).1 d.contents
      → cursor_target pos d ≡ some to
      → Moved (seek pos f) (cursor_seek pos d)
  unfolding seek cursor_seek
  seek_inside pos to f d p s q =
      let (result, shows, moved) = move_lem to (seek_position pos f).1 d.contents s in
      rw (p, q, seek, cursor_seek) (rw result refl, record { shows = shows; position = moved })

  seek_outside :
      (pos : SeekFrom) (e : IoError) (f : EncodedDbFile R I) (d : DbFile I.FileInfo)
      → (seek_position pos f).0 ≡ Io.failed e
      → e.kind ≡ IoErrorKind.invalid_input
      → Refines (seek_position pos f).1 d
      → cursor_target pos d ≡ none
      → Moved (seek pos f) (cursor_seek pos d)
  unfolding seek cursor_seek
  seek_outside pos e f d p k r q = rw (p, q, seek, cursor_seek) (k, r)

  fill_end :
      (offset : Offset) (f : EncodedDbFile R I)
      → (fill_until none f).0 ≡ Io.done tt
      → seek_position (end offset) f
        ≡ (offset_position (length (fill_until none f).1.emitted) offset, (fill_until none f).1)
  unfolding seek_position
  fill_end offset f h = rw (h, seek_position) refl

  -- Seeking in a file answers as seeking with the cursor over its whole encoding does, up to the
  -- wording of an error, and leaves both at the same position, where the encoding succeeds.
  pub seek-Refines :
      (pos : SeekFrom) (f : EncodedDbFile R I) (d : DbFile I.FileInfo)
      → Refines f d
      → Agrees (seek pos f).0 (cursor_seek pos d).0 × Refines (seek pos f).1 (cursor_seek pos d).1
  unfolding seek_position cursor_target
  seek-Refines (start to) f d r = seek_inside (start to) to f d refl r.shows refl
  seek-Refines (current offset) f d r = elim (added f.position offset) [
    | inside to p q ↦ seek_inside (current offset) to f d p r.shows (rw (sym r.position) q)
    | outside e p k q ↦ seek_outside (current offset) e f d p k r (rw (sym r.position) q)
  ]
  seek-Refines (end offset) f d r =
      let filled = fill_until_lem none d.contents f r.shows in
      let g = (fill_until none f).1 in
      let whole : g.emitted ≡ d.contents =
        Shows-eof g d.contents filled.shows (filled_none g filled.reached) in
      let at_end = fill_end offset f filled.result in
      elim (added (length d.contents) offset) [
        | inside to p q ↦
            seek_inside (end offset) to f d
              (ap (λ (out : Io ℕ × EncodedDbFile R I). out.0) at_end ∙ rw (whole, p))
              (subst (λ (out : Io ℕ × EncodedDbFile R I). Shows out.1 d.contents) (sym at_end)
                filled.shows)
              q
        | outside e p k q ↦
            seek_outside (end offset) e f d
              (ap (λ (out : Io ℕ × EncodedDbFile R I). out.0) at_end ∙ rw (whole, p)) k
              (subst (λ (out : Io ℕ × EncodedDbFile R I). Refines out.1 d) (sym at_end)
                (record { shows = filled.shows; position = filled.position ∙ r.position }))
              q
      ]
