-- ===== src/Ingress/Typed/Drain.antt =====
-- The loop of ingest of src/backend/transport/TypedIngressRuntime.cpp, against the answers of the parser.
use vsm_field_workstation.Prelude.{
  ℕ, zero, suc, ◌<◌, ◌≡◌, refl, sym, ap, ◌∙◌, subst, not, ◌&&◌, ◌||◌, Bool-cases, inl, inr, Option,
  none, some, List, [], ◌∷◌, ◌++◌, arith, length, length-append, length-drop, drop, drop-append,
  append-nil, All-append, All-drop,
}
use vsm_field_workstation.Prelude.Int.{ℤ}
use vsm_field_workstation.Foreign.{Qt}
use vsm_field_workstation.HostTx.{is_empty}
use vsm_field_workstation.Wire.{IsBytes, IsByte}
use vsm_field_workstation.Typed.{TypedRecord}
use vsm_field_workstation.Typed.Frame.{frame}
use vsm_field_workstation.Typed.Parser.{Counters, Parser, view, append, take_one}
use vsm_field_workstation.Typed.Parser.View.{view-append_chunk}
use vsm_field_workstation.Typed.Parser.Outcomes.{Outcome, Found}
use vsm_field_workstation.Typed.Parser.TakeOne.{take_one-Outcome}
use vsm_field_workstation.Ingress.Storage.{StorageOps}
use vsm_field_workstation.Ingress.Typed.{
  IngestResult, TypedIngressRuntime, Ingesting, flush_batch, take_in, with_parser, ingest_loop,
  opened, closed, ingest, report_status, report_storage,
}
use vsm_field_workstation.Ingress.Typed.Batches.{
  flat, flat-append, IsChunked, full-IsChunked, last-IsChunked, has_capability, stored, records,
  IsFilling, TakesIn, take_in-TakesIn, take_in-parser, with_parser-TakesIn, TakesIn-trans,
}

-- The calls of takeOne from p on return the records and then none, and leave q.
pub data Drains : Parser → List TypedRecord → Parser → Type 0 where
  ends : {p q : Parser} → take_one p ≡ some (none, q) → Drains p [] q
  takes :
      {p m q : Parser} {r : TypedRecord} {rs : List TypedRecord}
      → take_one p ≡ some (some r, m)
      → Drains m rs q
      → Drains p (r ∷ rs) q

frame_positive : (v t f s : ℕ) (payload : List ℕ) → 0 < length (frame v t f s payload)
unfolding frame
frame_positive v t f s payload = omega arith

-- A record takes at least a byte, and leaves bytes.
record Shrinks (p q : Parser) : Type 0 where
  fewer : length (view q.window) < length (view p.window)
  bytes : IsBytes (view q.window)

Found-Shrinks :
    (k : ℕ) (p q : Parser) (r : TypedRecord) → IsBytes (view p.window) → Found k p q r → Shrinks p q
Found-Shrinks k p q r h f = record {
  fewer = omega (
    arith,
    ap (λ xs. length xs) f.split,
    length-append r.frame_bytes (view q.window),
    length-drop k (view p.window),
    ap (λ xs. length xs) f.is_record.bytes,
    frame_positive r.header.version r.header.record_type r.header.flags r.header.seq r.payload,
  );
  bytes =
      subst IsBytes
        (ap (λ xs. drop (length r.frame_bytes) xs) f.split
          ∙ drop-append r.frame_bytes (view q.window) (length r.frame_bytes) refl)
        (All-drop IsByte (length r.frame_bytes) (drop k (view p.window))
          (All-drop IsByte k (view p.window) h));
}

append-view : (p : Parser) (chunk : List ℕ) → view (append p chunk).window ≡ view p.window ++ chunk
unfolding append
append-view p chunk = view-append_chunk chunk p.window

module _ {S J : Type 0} (ops : StorageOps S J) (qt : Qt) where
  -- The loop returns, with the records that the parser has.
  abbrev Looped : ℕ → ℤ → Ingesting ops qt → Type 0
  Looped rounds h g =
      (g2 : Ingesting ops qt) × (rs : List TypedRecord) × (ingest_loop ops qt rounds h g ≡ some g2)
      × Drains g.runtime.parser rs g2.runtime.parser
      × TakesIn ops qt rs g g2

  ingest_loop-Looped :
      (rounds : ℕ) (h : ℤ) (g : Ingesting ops qt)
      → length (view g.runtime.parser.window) < rounds
      → IsBytes (view g.runtime.parser.window)
      → Looped rounds h g
  unfolding ingest_loop with_parser
  ingest_loop-Looped zero h g enough bytes = absurd (omega arith)
  ingest_loop-Looped (suc rounds) h g enough bytes =
      answer (ingest_loop-Looped rounds h) (take_one-Outcome g.runtime.parser bytes)
    where
      answer :
          ((x : Ingesting ops qt)
            → length (view x.runtime.parser.window) < rounds
            → IsBytes (view x.runtime.parser.window)
            → Looped rounds h x)
          → ((o : Option TypedRecord) × (q : Parser) × (take_one g.runtime.parser ≡ some (o, q))
              × Outcome g.runtime.parser o q)
          → Looped (suc rounds) h g
      answer again (none, q, e, out) = (
        with_parser ops qt q g,
        [],
        rw (e, ingest_loop) refl,
        ends e,
        with_parser-TakesIn ops qt q g,
      )
      answer again (some r, q, e, (k, found)) =
          let less = Found-Shrinks k g.runtime.parser q r bytes found in
          let next = take_in ops qt h r (with_parser ops qt q g) in
          let parser : next.runtime.parser ≡ q =
            take_in-parser ops qt h r (with_parser ops qt q g) in
          let (g2, rs, later, drains, taken) =
            again next (rw (ap (λ p. length (view p.window)) parser) (omega (arith, less.fewer)))
              (subst (λ p. IsBytes (view p.window)) (sym parser) less.bytes) in
          (
            g2,
            r ∷ rs,
            rw (e, ingest_loop) later,
            takes e (subst (λ p. Drains p rs g2.runtime.parser) parser drains),
            TakesIn-trans ops qt (r ∷ []) rs g next g2
                (TakesIn-trans ops qt [] (r ∷ []) g (with_parser ops qt q g) next
                  (with_parser-TakesIn ops qt q g)
                  (take_in-TakesIn ops qt h r (with_parser ops qt q g)))
                taken,
          )

  -- What the end of ingest leaves alone.
  record Keeps (g h : Ingesting ops qt) : Type 0 where
    batches : h.result.record_batches ≡ g.result.record_batches
    first : h.result.capability_first_seen ≡ g.result.capability_first_seen
    seen : h.runtime.capability_seen_since_open ≡ g.runtime.capability_seen_since_open
    storage : h.runtime.storage ≡ g.runtime.storage
    parser : h.runtime.parser ≡ g.runtime.parser

  Keeps-trans : (g m h : Ingesting ops qt) → Keeps g m → Keeps m h → Keeps g h
  Keeps-trans g m h a b = record {
    batches = b.batches ∙ a.batches;
    first = b.first ∙ a.first;
    seen = b.seen ∙ a.seen;
    storage = b.storage ∙ a.storage;
    parser = b.parser ∙ a.parser;
  }

  report_status-Keeps :
      (now : ℕ) (before : Counters) (g : Ingesting ops qt)
      → Keeps g (report_status ops qt now before g)
  unfolding report_status
  report_status-Keeps now before g = record {
    batches = ground arith;
    first = ground arith;
    seen = ground arith;
    storage = ground arith;
    parser = ground arith;
  }

  report_storage-Keeps : (now : ℕ) (g : Ingesting ops qt) → Keeps g (report_storage ops qt now g)
  unfolding report_storage
  report_storage-Keeps now g = record {
    batches = ground arith;
    first = ground arith;
    seen = ground arith;
    storage = ground arith;
    parser = ground arith;
  }

  abbrev Flushed : Ingesting ops qt → Type 0
  Flushed g =
      (flat (flush_batch ops qt g).result.record_batches ≡ records ops qt g)
      × IsChunked (flush_batch ops qt g).result.record_batches

  flush_batch-Flushed :
      (g : Ingesting ops qt) (batch : List TypedRecord)
      → g.batch ≡ batch
      → IsFilling ops qt g
      → Flushed g
  unfolding flush_batch
  flush_batch-Flushed g [] e v = rw e (
    sym (append-nil (flat g.result.record_batches)),
    full-IsChunked g.result.record_batches v.full,
  )
  flush_batch-Flushed g (r ∷ rs) e v = rw e (
    flat-append g.result.record_batches (r ∷ rs),
    last-IsChunked g.result.record_batches (r ∷ rs) v.full (omega arith)
        (omega (arith, v.open_, ap (λ xs. length xs) e)),
  )

  flush_batch-runtime : (g : Ingesting ops qt) → (flush_batch ops qt g).runtime ≡ g.runtime
  unfolding flush_batch
  flush_batch-runtime g = elim (Bool-cases (is_empty g.batch)) [
    | inl e ↦ rw e refl
    | inr e ↦ rw e refl
  ]

  flush_batch-first :
      (g : Ingesting ops qt)
      → (flush_batch ops qt g).result.capability_first_seen ≡ g.result.capability_first_seen
  unfolding flush_batch
  flush_batch-first g = elim (Bool-cases (is_empty g.batch)) [
    | inl e ↦ rw e refl
    | inr e ↦ rw e refl
  ]

  -- The answer of ingest, for the records that the parser has.
  pub record Delivers (t : TypedIngressRuntime ops qt) (bytes : List ℕ) (rs : List TypedRecord)
      (result : IngestResult) (t2 : TypedIngressRuntime ops qt) : Type 0 where
    pub drained : Drains (append t.parser bytes) rs t2.parser
    pub batched : flat result.record_batches ≡ rs
    pub chunked : IsChunked result.record_batches
    pub first :
        result.capability_first_seen ≡ (not t.capability_seen_since_open && has_capability rs)
    pub seen : t2.capability_seen_since_open ≡ (t.capability_seen_since_open || has_capability rs)
    pub storage : t2.storage ≡ stored ops qt rs t.storage

  closed-Delivers :
      (now : ℕ) (bytes : List ℕ) (t : TypedIngressRuntime ops qt) (rs : List TypedRecord)
      (g : Ingesting ops qt)
      → Drains (append t.parser bytes) rs g.runtime.parser
      → TakesIn ops qt rs (opened ops qt bytes t) g
      → Delivers t bytes rs
          (closed ops qt now t.parser.counters g).0
          (closed ops qt now t.parser.counters g).1
  unfolding closed opened
  closed-Delivers now bytes t rs g drains taken =
      let f = flush_batch ops qt g in
      let s = report_status ops qt now t.parser.counters f in
      let k =
        Keeps-trans f s (report_storage ops qt now s) (report_status-Keeps now t.parser.counters f)
          (report_storage-Keeps now s) in
      let v = taken.filling (record { full = tt; open_ = omega arith }) in
      let (same, chunks) = flush_batch-Flushed g g.batch refl v in
      let runtime = flush_batch-runtime g in
      record {
        drained =
            subst (λ p. Drains (append t.parser bytes) rs p)
              (sym (k.parser ∙ ap (λ x. x.parser) runtime)) drains;
        batched = ap (λ bs. flat bs) k.batches ∙ same ∙ taken.batched;
        chunked = subst IsChunked (sym k.batches) chunks;
        first = k.first ∙ flush_batch-first g ∙ taken.first;
        seen = k.seen ∙ ap (λ x. x.capability_seen_since_open) runtime ∙ taken.seen;
        storage = k.storage ∙ ap (λ x. x.storage) runtime ∙ taken.storage;
      }

  -- On bytes that are not empty, and from any state of bytes, ingest returns. The records it hands over
  -- are exactly those that takeOne returns until it has none, in order, in batches of 512 of which only
  -- the last may be shorter, and none is empty; each of them was offered in order to the storage, while
  -- that was active; and a first capability record is reported exactly when none was seen since the stream
  -- was opened and there is one among them.
  pub ingest-Delivers :
      (now : ℕ) (b : ℕ) (bs : List ℕ) (h : ℤ) (t : TypedIngressRuntime ops qt)
      → IsBytes (view t.parser.window)
      → IsBytes (b ∷ bs)
      → (rs : List TypedRecord) × (result : IngestResult) × (t2 : TypedIngressRuntime ops qt)
        × (ingest ops qt now (b ∷ bs) h t ≡ some (result, t2))
        × Delivers t (b ∷ bs) rs result t2
  unfolding ingest
  ingest-Delivers now b bs h t old new =
      let g = opened ops qt (b ∷ bs) t in
      let bytes = All-append IsByte (view t.parser.window) (b ∷ bs) old new in
      let (g2, rs, e, drains, taken) =
        ingest_loop-Looped (suc (length (view g.runtime.parser.window))) h g (omega arith)
          (subst IsBytes (sym (append-view t.parser (b ∷ bs))) bytes) in
      (
        rs,
        (closed ops qt now t.parser.counters g2).0,
        (closed ops qt now t.parser.counters g2).1,
        rw (e, ingest) refl,
        closed-Delivers now (b ∷ bs) t rs g2 drains taken,
      )
