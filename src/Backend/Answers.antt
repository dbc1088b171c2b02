-- ===== src/Backend/Answers.antt =====
-- A streamed query always answers: the thread sends a schema or an error, once.
use fsspec_db.Prelude.{
  ℕ, zero, suc, ◌≡◌, refl, ap, ◌∙◌, inl, inr, ◌⊎◌, Bool, true, false, Option, none, some, List, [],
  ◌∷◌, ◌++◌, length, ◌==◌, Bool-cases,
}
use fsspec_db.Error.{DbError, SqlxError, Result, ok, err}
use fsspec_db.Stream.Open.{Result-cases}
use fsspec_db.Backend.Worker.{
  Decoder, Channels, Ended, returned, query_batch_size, send_schema, mark_sent, send_batch,
  send_schema_once, send_chunk, send_empty, send_last, metadata_or, worker, send_error, forget,
  stream_thread,
}

ℕ-cases : (n : ℕ) → (n ≡ 0) ⊎ ((k : ℕ) × (n ≡ suc k))
ℕ-cases zero = inl refl
ℕ-cases (suc k) = inr (k, refl)

module _ (D : Decoder) where
  -- One schema has been sent.
  abbrev Opened : Channels D → Type 0
  Opened c = (c.schema_sent ≡ true) × (s : D.Schema) × (c.schemas ≡ ok s ∷ [])

  -- Nothing has been sent, or one schema has.
  abbrev Sound : Channels D → Type 0
  Sound c = Opened c ⊎ ((c.schema_sent ≡ false) × (c.schemas ≡ []))

  -- The worker ends well with the schema sent, or with an error, and it never panics.
  data Finishes : Channels D × Ended → Type 0 where
    well : {c : Channels D} → Opened c → Finishes (c, returned (ok tt))
    wrong : {c : Channels D} {e : DbError} → Sound c → Finishes (c, returned (err e))

  once-Opened : (b : D.Batch) (c : Channels D) → Sound c → Opened (send_schema_once D b c)
  unfolding send_schema_once mark_sent send_schema
  once-Opened b c (inl (s, schema, p)) = rw s (refl, schema, p)
  once-Opened b c (inr (s, p)) = rw (s, p) (refl, D.batch_schema b, refl)

  batch-Opened :
      (item : Result D.Batch) (c : Channels D) → Opened c → Opened (send_batch D item c).0
  unfolding send_batch
  batch-Opened item c h = elim (ℕ-cases c.takes) [ inl z ↦ rw z h | inr (n, z) ↦ rw z h ]

  -- A chunk is sent behind the schema, or nothing is.
  data Sends (c : Channels D) : Channels D × Result Bool → Type 0 where
    sends : {sent : Channels D} {taken : Bool} → Opened sent → Sends c (sent, ok taken)
    fails : {e : DbError} → Sends c (c, err e)

  send_chunk-Sends :
      (m : D.Metadata) (chunk : List D.Row) (c : Channels D)
      → Sound c
      → Sends c (send_chunk D m chunk c)
  unfolding send_chunk
  send_chunk-Sends m chunk c h = elim (Result-cases (D.rows_to_batch m chunk)) [
    | inl (e, p) ↦ rw (p, send_chunk) fails
    | inr (b, p) ↦ rw (p, send_chunk) (sends (batch-Opened (ok b) _ (once-Opened b c h)))
  ]

  send_empty-Finishes : (c : Channels D) → Sound c → Finishes (send_empty D c)
  unfolding send_empty mark_sent send_schema
  send_empty-Finishes c (inl o) = rw (o.0, send_empty) (well o)
  send_empty-Finishes c (inr (s, p)) = elim (Result-cases D.query_schema) [
    | inl (e, q) ↦ rw (s, q, send_empty) (wrong (inr (s, p)))
    | inr (schema, q) ↦
        rw (s, q, send_empty)
          (well (batch-Opened _ _ (refl, schema, ap (λ l. l ++ ok schema ∷ []) p)))
  ]

  of_Sends :
      {c : Channels D} (out : Channels D × Result Bool)
      → Sound c
      → Sends c out
      → Finishes (out.0, returned (forget out.1))
  of_Sends _ h (sends o) = well o
  of_Sends _ h fails = wrong h

  send_last-Finishes :
      (m : Option D.Metadata) (chunk : List D.Row) (c : Channels D)
      → Sound c
      → (m ≡ none → chunk ≡ [])
      → Finishes (send_last D m chunk c)
  unfolding send_last
  send_last-Finishes m [] c h some_m = send_empty-Finishes c h
  send_last-Finishes none (row ∷ chunk) c h some_m = absurd (let e = some_m refl in cc)
  send_last-Finishes (some m) (row ∷ chunk) c h some_m =
      of_Sends (send_chunk D m (row ∷ chunk) c) h (send_chunk-Sends m (row ∷ chunk) c h)

  -- the loop behind a chunk
  abbrev go_on : Channels D × Result Bool → (Channels D → Channels D × Ended) → Channels D × Ended
  go_on out next = elim out.1 [
    | err d ↦ (out.0, returned (err d))
    | ok taken ↦ elim taken [ false ↦ (out.0, returned (ok tt)) | true ↦ next out.0 ]
  ]

  go_on-Finishes :
      {c : Channels D} (out : Channels D × Result Bool) (next : Channels D → Channels D × Ended)
      → Sound c
      → Sends c out
      → ((sent : Channels D) → Sound sent → Finishes (next sent))
      → Finishes (go_on out next)
  go_on-Finishes _ next h (sends {taken = false} o) rest = well o
  go_on-Finishes _ next h (sends {sent = sent} {taken = true} o) rest = rest sent (inl o)
  go_on-Finishes _ next h fails rest = wrong h

  worker-Finishes :
      (rows chunk : List D.Row) (m : Option D.Metadata) (e : Option SqlxError) (c : Channels D)
      → Sound c
      → (m ≡ none → chunk ≡ [])
      → Finishes (worker D m chunk rows e c)
  unfolding worker
  worker-Finishes [] chunk m none c h some_m = send_last-Finishes m chunk c h some_m
  worker-Finishes [] chunk m (some e) c h some_m = wrong h
  worker-Finishes (row ∷ rows) chunk m e c h some_m =
      let known = metadata_or D m row in
      let filled = chunk ++ row ∷ [] in
      elim (Bool-cases (length filled == query_batch_size)) [
        | inl p ↦
            rw (p, worker)
              (go_on-Finishes (send_chunk D known filled c) (worker D (some known) [] rows e) h
                (send_chunk-Sends known filled c h)
                (λ sent k. worker-Finishes rows [] (some known) e sent k (λ q. refl)))
        | inr p ↦ rw (p, worker) (worker-Finishes rows filled (some known) e c h (λ q. cc))
      ]

  error_sent :
      (c : Channels D) (e : DbError)
      → c.schema_sent ≡ true
      → send_error D (c, returned (err e)) ≡ (send_batch D (err e) c).0
  unfolding send_error
  error_sent c e h = simp (h, send_error)

  error-schemas :
      (out : Channels D × Ended)
      → Finishes out
      → (s : Result D.Schema) × ((send_error D out).schemas ≡ s ∷ [])
  unfolding send_error send_schema send_batch
  error-schemas _ (well (s, schema, p)) = (ok schema, p)
  error-schemas _ (wrong {c = c} {e = e} (inl o)) =
      let (sent, s, p) = batch-Opened (err e) c o in
      (ok s, ap (λ (x : Channels D). x.schemas) (error_sent c e o.0) ∙ p)
  error-schemas _ (wrong {c = c} {e = e} (inr (s, p))) = (err e, rw (s, p) refl)

  -- Whatever the rows are, wherever fetching or decoding them fails and whenever the reader is dropped,
  -- the thread sends to the caller that waits for it just one schema or error.
  pub stream_thread-schemas :
      (rows : List D.Row) (e : Option SqlxError) (takes : ℕ)
      → (s : Result D.Schema) × ((stream_thread D rows e takes).schemas ≡ s ∷ [])
  unfolding stream_thread
  stream_thread-schemas rows e takes =
      error-schemas _ (worker-Finishes rows [] none e _ (inr (refl, refl)) (λ h. refl))
