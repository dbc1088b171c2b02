-- ===== src/Backend/Query.antt =====
-- What a streamed query answers: the results that the reader of its channel gets.
use fsspec_db.Prelude.{
  ℕ, suc, ◌<◌, ◌≤◌, ◌≡◌, ◌≢◌, refl, sym, ap, ◌∙◌, true, false, Option, List, [], ◌∷◌, ◌++◌, ◌-◌,
  length, map, append-nil, append_assoc, length-append, arith,
}
use fsspec_db.Prelude.Text.{Text}
use fsspec_db.Error.{DbError, SqlxError, Result, ok, err}
use fsspec_db.Backend.Worker.{
  Decoder, Channels, returned, channel_item, send_schema, send_batch, worker, send_error,
  stream_thread, received, stream_query,
}
use fsspec_db.Backend.Delivers.{
  Delivers, answer, ended, last, lost, full, schemas_with, pushed, pred-of, absorb, absorb_ok,
  worker-absorb,
}

module _ (D : Decoder) where
  error_opened :
      (e : DbError) (c : Channels D) (takes : ℕ)
      → c.schema_sent ≡ true
      → c.takes ≡ suc takes
      → ((send_error D (c, returned (err e))).schemas ≡ c.schemas)
        × ((send_error D (c, returned (err e))).batches ≡ c.batches ++ err e ∷ [])
        × ((send_error D (c, returned (err e))).schema_sent ≡ true)
        × ((send_error D (c, returned (err e))).takes ≡ takes)
  unfolding send_error send_batch
  error_opened e c takes s t = rw (s, t) (refl, refl, refl, refl)

  module _ (decode : List D.Row → D.Batch) where
    -- With the schema sent, the results are all taken, in their order.
    absorb-opened :
        (out : List (Result D.Batch)) (c : Channels D)
        → c.schema_sent ≡ true
        → length out ≤ c.takes
        → ((absorb D decode out c).schemas ≡ c.schemas)
          × ((absorb D decode out c).batches ≡ c.batches ++ out)
    absorb-opened [] c s room = (refl, sym (append-nil c.batches))
    absorb-opened (ok b ∷ out) c s room =
        let t = pred-of c.takes {k = length out} (omega arith) in
        let next = pushed D b (c.takes - 1) c in
        let (schemas, batches) = absorb-opened out next refl (omega arith) in
        rw (absorb_ok D decode b out c _ t) (
          schemas ∙ ap (λ sent. schemas_with D sent b c.schemas) s,
          batches ∙ append_assoc c.batches (ok b ∷ []) out,
        )
    absorb-opened (err e ∷ out) c s room =
        let t = pred-of c.takes {k = length out} (omega arith) in
        let (p, q, sent, takes) = error_opened e c _ s t in
        let (schemas, batches) =
          absorb-opened out (send_error D (c, returned (err e))) sent (omega arith) in
        (schemas ∙ p, batches ∙ ap (λ l. l ++ out) q ∙ append_assoc c.batches (err e ∷ []) out)

    length-Delivers :
        {e : Option SqlxError} (rows : List D.Row) (out : List (Result D.Batch))
        → Delivers decode e rows out
        → length out ≤ suc (length rows)
    length-Delivers rows out (ended h) = omega arith
    length-Delivers rows out (last h k l) = omega arith
    length-Delivers rows out (lost h k) = omega arith
    length-Delivers _ _ (full {chunk = chunk} {rows = rows} {out = out} h d) =
        let i = length-Delivers rows out d in let l = length-append chunk rows in omega arith

  -- the channels as the thread finds them
  abbrev at_first : ℕ → Channels D
  at_first takes = record { schemas = []; batches = []; takes = takes; schema_sent = false }

  received_ok :
      (name : Text) (c : Channels D) (s : D.Schema)
      → c.schemas ≡ ok s ∷ []
      → received D name c ≡ ok (s, map channel_item c.batches)
  unfolding received
  received_ok name c s h = rw h refl

  answer_ok :
      (name : Text) (decode : List D.Row → D.Batch) (b : D.Batch) (out : List (Result D.Batch))
      (takes : ℕ)
      → length out < takes
      → received D name (absorb D decode (ok b ∷ out) (at_first takes)) ≡ answer D (ok b ∷ out)
  unfolding answer
  answer_ok name decode b out takes room =
      let next = pushed D b (takes - 1) (at_first takes) in
      let (schemas, batches) = absorb-opened decode out next refl (omega arith) in
      ap (received D name)
        (absorb_ok D decode b out (at_first takes) (takes - 1) (pred-of takes room))
      ∙ (received_ok name (absorb D decode out next) (D.batch_schema b) schemas
          ∙ ap (λ l. ok (D.batch_schema b, map channel_item l)) batches)

  answer_lem :
      (name : Text) (decode : List D.Row → D.Batch) (e : Option SqlxError) (rows : List D.Row)
      (out : List (Result D.Batch)) (takes : ℕ)
      → Delivers decode e rows out
      → rows ≢ []
      → length rows < takes
      → received D name (absorb D decode out (at_first takes)) ≡ answer D out
  unfolding received answer send_error send_schema
  answer_lem name decode e rows out takes (ended h) some_row room = absurd (some_row refl)
  answer_lem name decode e rows out takes (last h k l) some_row room =
      answer_ok name decode (decode rows) [] takes (omega arith)
  answer_lem name decode e rows out takes (lost h k) some_row room = refl
  answer_lem name decode e _ _ takes (full {chunk = chunk} {rows = rows} {out = out} h d) some_row
        room =
      let i = length-Delivers decode rows out d in
      let k = length-append chunk rows in
      answer_ok name decode (decode chunk) out takes (omega arith)

  -- Where the reader takes as many results as there are rows and one more, and every chunk can be decoded, a
  -- query with rows answers what delivers them: in their order, in chunks of 1024 and a shorter last
  -- one; or, if fetching them fails, the full chunks before that and then the error.
  pub stream_query-Delivers :
      (name : Text) (row : D.Row) (rows : List D.Row) (e : Option SqlxError) (takes : ℕ)
      (decode : List D.Row → D.Batch)
      → ((chunk : List D.Row) → D.rows_to_batch (D.column_metadata row) chunk ≡ ok (decode chunk))
      → length (row ∷ rows) < takes
      → (out : List (Result D.Batch)) × Delivers decode e (row ∷ rows) out
        × (stream_query D name (row ∷ rows) e takes ≡ answer D out)
  unfolding stream_query stream_thread worker
  stream_query-Delivers name row rows e takes decode decodes room =
      let (out, delivers, same) =
        worker-absorb D (D.column_metadata row) e decode decodes (row ∷ rows) [] (at_first takes)
          (omega arith) room (λ h. cc) in
      (
        out,
        delivers,
        ap (received D name) same
            ∙ answer_lem name decode e (row ∷ rows) out takes delivers (λ h. cc) room,
      )
