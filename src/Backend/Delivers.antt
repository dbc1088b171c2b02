-- ===== src/Backend/Delivers.antt =====
-- What a streamed query delivers: the rows in their order, in chunks, and an error behind them.
use fsspec_db.Prelude.{
  ℕ, suc, ◌<◌, ◌≡◌, ◌≢◌, refl, ap, ◌∙◌, inl, inr, Bool, true, false, Option, none, some, List, [],
  ◌∷◌, ◌++◌, ◌-◌, ◌⊎◌, length, map, ◌==◌, ==_iff, Bool-cases, Option-cases, append-nil,
  length-append, arith,
}
use fsspec_db.Error.{DbError, SqlxError, Result, ok, err, from_sqlx}
use fsspec_db.Stream.Codec.{Item}
use fsspec_db.Backend.Worker.{
  Decoder, Channels, returned, query_batch_size, channel_item, send_schema, mark_sent, send_batch,
  send_schema_once, send_chunk, send_empty, send_last, worker, send_error,
}

-- Rows to the results that a reader gets: full chunks, then a shorter chunk if rows are left. Where
-- the rows end with an error, it comes in place of the last chunk.
pub data Delivers {Row Batch : Type 0} (decode : List Row → Batch) (e : Option SqlxError)
    : List Row → List (Result Batch) → Type 0 where
  ended : e ≡ none → Delivers decode e [] []
  last :
      {rows : List Row}
      → e ≡ none
      → rows ≢ []
      → length rows < query_batch_size
      → Delivers decode e rows (ok (decode rows) ∷ [])
  lost :
      {rows : List Row} {d : SqlxError}
      → e ≡ some d
      → length rows < query_batch_size
      → Delivers decode e rows (err (from_sqlx d) ∷ [])
  full :
      {chunk rows : List Row} {out : List (Result Batch)}
      → length chunk ≡ query_batch_size
      → Delivers decode e rows out
      → Delivers decode e (chunk ++ rows) (ok (decode chunk) ∷ out)

pub pred-of : (n : ℕ) {k : ℕ} → k < n → n ≡ suc (n - 1)
pred-of n h = omega arith

append_snoc : {A : Type 0} (xs : List A) (y : A) (zs : List A) → xs ++ y ∷ zs ≡ (xs ++ y ∷ []) ++ zs
append_snoc [] y zs = refl
append_snoc (x ∷ xs) y zs = ap (λ l. x ∷ l) (append_snoc xs y zs)

-- A chunk that takes one more row is full, or still shorter.
full-cases :
    {A : Type 0} (chunk : List A) (row : A)
    → length chunk < query_batch_size
    → ((length (chunk ++ row ∷ []) == query_batch_size) ≡ true)
      ⊎ (((length (chunk ++ row ∷ []) == query_batch_size) ≡ false)
          × (length (chunk ++ row ∷ []) < query_batch_size))
full-cases chunk row h =
    let l = length-append chunk (row ∷ []) in
    elim (Bool-cases (length (chunk ++ row ∷ []) == query_batch_size)) [
      | inl e ↦ inl e
      | inr e ↦ inr (e, grind arith)
    ]

module _ (D : Decoder) where
  -- What a query that delivers these results answers: the schema of the first batch, and the
  -- results; or the error that comes first.
  unfoldable pub answer : List (Result D.Batch) → Result (D.Schema × List (Item D.Batch))
  answer [] = err (DbError.other [])
  answer (err e ∷ out) = err e
  answer (ok b ∷ out) = ok (D.batch_schema b, map channel_item (ok b ∷ out))

  abbrev pub schemas_with : Bool → D.Batch → List (Result D.Schema) → List (Result D.Schema)
  schemas_with true b schemas = schemas
  schemas_with false b schemas = schemas ++ ok (D.batch_schema b) ∷ []

  -- a batch that is taken
  abbrev pub pushed : D.Batch → ℕ → Channels D → Channels D
  pushed b takes c = record {
    schemas = schemas_with c.schema_sent b c.schemas;
    batches = c.batches ++ ok b ∷ [];
    takes = takes;
    schema_sent = true;
  }

  send_taken :
      (b : D.Batch) (c : Channels D) (takes : ℕ)
      → c.takes ≡ suc takes
      → send_batch D (ok b) (send_schema_once D b c) ≡ (pushed b takes c, true)
  unfolding send_batch send_schema_once send_schema mark_sent
  send_taken b c takes h = elim (Bool-cases c.schema_sent) [
    | inl e ↦ rw (e, h) refl
    | inr e ↦ rw (e, h) refl
  ]

  chunk_taken :
      (m : D.Metadata) (chunk : List D.Row) (b : D.Batch) (c : Channels D) (takes : ℕ)
      → D.rows_to_batch m chunk ≡ ok b
      → c.takes ≡ suc takes
      → send_chunk D m chunk c ≡ (pushed b takes c, ok true)
  unfolding send_chunk
  chunk_taken m chunk b c takes d h = rw (d, send_chunk, send_taken b c takes h) refl

  empty_sent : (c : Channels D) → c.schema_sent ≡ true → send_empty D c ≡ (c, returned (ok tt))
  unfolding send_empty
  empty_sent c h = simp (h, send_empty)

  module _ (m : D.Metadata) (e : Option SqlxError) where
    worker-none :
        (chunk : List D.Row) (c : Channels D)
        → e ≡ none
        → worker D (some m) chunk [] e c ≡ send_last D (some m) chunk c
    unfolding worker
    worker-none chunk c h = rw (h, worker) refl

    worker_lost :
        (chunk : List D.Row) (c : Channels D) (d : SqlxError)
        → e ≡ some d
        → worker D (some m) chunk [] e c ≡ (c, returned (err (from_sqlx d)))
    unfolding worker
    worker_lost chunk c d h = rw (h, worker) refl

    worker_more :
        (chunk rows : List D.Row) (row : D.Row) (c : Channels D)
        → (length (chunk ++ row ∷ []) == query_batch_size) ≡ false
        → worker D (some m) chunk (row ∷ rows) e c ≡ worker D (some m) (chunk ++ row ∷ []) rows e c
    unfolding worker
    worker_more chunk rows row c h = rw (h, worker) refl

    worker_full :
        (chunk rows : List D.Row) (row : D.Row) (b : D.Batch) (c : Channels D) (takes : ℕ)
        → (length (chunk ++ row ∷ []) == query_batch_size) ≡ true
        → D.rows_to_batch m (chunk ++ row ∷ []) ≡ ok b
        → c.takes ≡ suc takes
        → worker D (some m) chunk (row ∷ rows) e c ≡ worker D (some m) [] rows e (pushed b takes c)
    unfolding worker
    worker_full chunk rows row b c takes h d t =
        let p = chunk_taken m (chunk ++ row ∷ []) b c takes d t in
        rw (h, worker, ap (λ x. x.1) p) (ap (λ x. worker D (some m) [] rows e x.0) p)

  module _ (decode : List D.Row → D.Batch) where
    -- what the results leave in the channels
    abbrev pub absorb : List (Result D.Batch) → Channels D → Channels D
    absorb [] c = c
    absorb (ok b ∷ out) c = absorb out (send_batch D (ok b) (send_schema_once D b c)).0
    absorb (err d ∷ out) c = absorb out (send_error D (c, returned (err d)))

    pub absorb_ok :
        (b : D.Batch) (out : List (Result D.Batch)) (c : Channels D) (takes : ℕ)
        → c.takes ≡ suc takes
        → absorb (ok b ∷ out) c ≡ absorb out (pushed b takes c)
    absorb_ok b out c takes h = ap (λ x. absorb out x.0) (send_taken b c takes h)

  module _ (m : D.Metadata) (e : Option SqlxError) (decode : List D.Row → D.Batch)
      (decodes : (chunk : List D.Row) → D.rows_to_batch m chunk ≡ ok (decode chunk)) where
    last-absorb :
        (chunk : List D.Row) (c : Channels D) (takes : ℕ)
        → e ≡ none
        → length chunk < query_batch_size
        → c.takes ≡ suc takes
        → (chunk ≡ [] → c.schema_sent ≡ true)
        → (out : List (Result D.Batch)) × Delivers decode e chunk out
          × (send_error D (send_last D (some m) chunk c) ≡ absorb decode out c)
    unfolding send_last send_error send_empty
    last-absorb [] c takes n small t live =
        ([], ended n, ap (send_error D) (empty_sent c (live refl)))
    last-absorb (row ∷ chunk) c takes n small t live =
        let p =
          chunk_taken m (row ∷ chunk) (decode (row ∷ chunk)) c takes (decodes (row ∷ chunk)) t in
        (
          ok (decode (row ∷ chunk)) ∷ [],
          last n (λ h. cc) small,
          rw (absorb_ok decode (decode (row ∷ chunk)) [] c takes t, ap (λ x. x.1) p)
              (ap (λ x. x.0) p),
        )

    pub worker-absorb :
        (rows chunk : List D.Row) (c : Channels D)
        → length chunk < query_batch_size
        → length rows < c.takes
        → (chunk ++ rows ≡ [] → c.schema_sent ≡ true)
        → (out : List (Result D.Batch)) × Delivers decode e (chunk ++ rows) out
          × (send_error D (worker D (some m) chunk rows e c) ≡ absorb decode out c)
    worker-absorb [] chunk c small room live =
        let e₀ = append-nil chunk in
        elim (Option-cases e) [
          | inl n ↦
              rw (e₀, worker-none m e chunk c n)
                (last-absorb chunk c _ n small (pred-of c.takes room) (λ h. live (e₀ ∙ h)))
          | inr (d, p) ↦ (
            err (from_sqlx d) ∷ [],
            rw e₀ (lost p small),
            ap (send_error D) (worker_lost m e chunk c d p),
          )
        ]
    worker-absorb (row ∷ rows) chunk c small room live = elim (full-cases chunk row small) [
      | inl h ↦
          let filled = chunk ++ row ∷ [] in
          let b = decode filled in
          let t = pred-of c.takes room in
          let (out, delivers, same) =
            worker-absorb rows [] (pushed b (c.takes - 1) c) (omega arith) (omega arith)
              (λ _. refl) in
          (
            ok b ∷ out,
            rw (append_snoc chunk row rows) (full ((==_iff _ _).0 h) delivers),
            rw
                (
                  worker_full m e chunk rows row b c _ h (decodes filled) t,
                  absorb_ok decode b out c _ t,
                )
                same,
          )
      | inr (h, less) ↦
          rw (append_snoc chunk row rows, worker_more m e chunk rows row c h)
            (worker-absorb rows (chunk ++ row ∷ []) c less (omega arith)
              (λ h. live (append_snoc chunk row rows ∙ h)))
    ]
