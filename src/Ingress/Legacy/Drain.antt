-- ===== src/Ingress/Legacy/Drain.antt =====
-- The loop of ingest of src/backend/transport/LegacyIngressRuntime.cpp, against the answers of the parser.
use vsm_field_workstation.Prelude.{
  ℕ, zero, suc, ◌+◌, ◌<◌, ◌≡◌, refl, sym, ap, ◌∙◌, subst, false, Bool-cases, inl, inr, Option, none,
  some, List, [], ◌∷◌, ◌++◌, if◌then◌else◌, arith, length, length-drop, append-nil, All,
}
use vsm_field_workstation.Packet.Stream.{FrameRecord, PacketRecord, PacketParser, append, take_one}
use vsm_field_workstation.Packet.Stream.Outcome.{Finds, PacketOutcome, take_one-PacketOutcome}
use vsm_field_workstation.Ingress.Typed.Batches.{flat}
use vsm_field_workstation.Ingress.Legacy.{
  RecorderOps, LegacyResult, LegacyIngressRuntime, Carrying, flush_batch, with_recorder, take_in,
  with_parser, ingest_loop, logging_progress_due, report_logging, closed, opened, ingest,
}
use vsm_field_workstation.Ingress.Legacy.Carried.{
  frames_of, stats_of, IsBatch, recorded, Carries, with_recorder-Asks, flush_batch-Moves,
  flush_sized, take_in-Carries, take_in-parser, with_parser-Carries, Carries-trans,
}

-- The calls of takeOne from p on return the records and then none, and leave q.
pub data Drains : PacketParser → List PacketRecord → PacketParser → Type 0 where
  ends : {p q : PacketParser} → take_one p ≡ some (none, q) → Drains p [] q
  takes :
      {p m q : PacketParser} {r : PacketRecord} {rs : List PacketRecord}
      → take_one p ≡ some (some r, m)
      → Drains m rs q
      → Drains p (r ∷ rs) q

-- A record takes bytes.
Finds-shrinks :
    (k : ℕ) (p q : PacketParser) (r : PacketRecord)
    → Finds k p q r
    → length q.buffer < length p.buffer
Finds-shrinks k p q r f =
    omega (arith, ap (λ b. length b) f.left, length-drop (k + 20) p.buffer, f.room)

module _ {R : Type 0} (ops : RecorderOps R) where
  -- The loop returns, with the records that the parser has.
  abbrev Looped : ℕ → Carrying ops → Type 0
  Looped rounds g =
      (h : Carrying ops) × (rs : List PacketRecord) × (ingest_loop ops rounds g ≡ some h)
      × Drains g.runtime.parser rs h.runtime.parser
      × Carries ops rs g h

  ingest_loop-Looped :
      (rounds : ℕ) (g : Carrying ops) → length g.runtime.parser.buffer < rounds → Looped rounds g
  unfolding ingest_loop with_parser
  ingest_loop-Looped zero g enough = absurd (omega arith)
  ingest_loop-Looped (suc rounds) g enough =
      answer (ingest_loop-Looped rounds) (take_one-PacketOutcome g.runtime.parser)
    where
      answer :
          ((x : Carrying ops) → length x.runtime.parser.buffer < rounds → Looped rounds x)
          → ((o : Option PacketRecord) × (q : PacketParser) × (take_one g.runtime.parser
                ≡ some (o, q))
              × PacketOutcome g.runtime.parser o q)
          → Looped (suc rounds) g
      answer again (none, q, e, out) =
          (with_parser ops q g, [], rw (e, ingest_loop) refl, ends e, with_parser-Carries ops q g)
      answer again (some r, q, e, (k, found)) =
          let less = Finds-shrinks k g.runtime.parser q r found in
          let next = take_in ops r (with_parser ops q g) in
          let parser : next.runtime.parser ≡ q = take_in-parser ops r (with_parser ops q g) in
          let (h, rs, later, drains, carried) =
            again next (rw (ap (λ p. length p.buffer) parser) (omega (arith, less))) in
          (
            h,
            r ∷ rs,
            rw (e, ingest_loop) later,
            takes e (subst (λ p. Drains p rs h.runtime.parser) parser drains),
            Carries-trans ops (r ∷ []) rs g next h
                (Carries-trans ops [] (r ∷ []) g (with_parser ops q g) next
                  (with_parser-Carries ops q g) (take_in-Carries ops r (with_parser ops q g)))
                carried,
          )

  -- What the report of the recording leaves alone.
  record Keeps (g h : Carrying ops) : Type 0 where
    batches : h.result.frame_batches ≡ g.result.frame_batches
    stats : h.result.stats ≡ g.result.stats
    recorder : h.runtime.recorder ≡ g.runtime.recorder
    parser : h.runtime.parser ≡ g.runtime.parser

  report_logging-Keeps : (now : ℕ) (g : Carrying ops) → Keeps g (report_logging ops now g)
  unfolding report_logging logging_progress_due
  report_logging-Keeps now g = record {
    batches = ground arith;
    stats = ground arith;
    recorder = ground arith;
    parser = ground arith;
  }

  -- The answer of ingest, for the records that the parser has.
  pub record Delivers (t : LegacyIngressRuntime ops) (bytes : List ℕ) (rs : List PacketRecord)
      (result : LegacyResult) (t2 : LegacyIngressRuntime ops) : Type 0 where
    pub drained : Drains (append bytes t.parser) rs t2.parser
    pub batched : flat result.frame_batches ≡ frames_of rs
    pub sized : All IsBatch result.frame_batches
    pub counted : result.stats ≡ stats_of rs
    pub recorder : t2.recorder ≡ (
        if ops.is_active (recorded ops rs t.recorder)
        then ops.flush_pending false (recorded ops rs t.recorder)
        else recorded ops rs t.recorder)

  flushed-empty :
      (g : Carrying ops) (b : List FrameRecord) → g.batch ≡ b → (flush_batch ops g).batch ≡ []
  unfolding flush_batch
  flushed-empty g [] e = rw e refl
  flushed-empty g (f ∷ fs) e = rw e refl

  reported-Keeps :
      (now : ℕ) (g f : Carrying ops)
      → Keeps f (if ops.is_active g.runtime.recorder then report_logging ops now f else f)
  reported-Keeps now g f = elim (Bool-cases (ops.is_active g.runtime.recorder)) [
    | inl e ↦ rw e (report_logging-Keeps now f)
    | inr e ↦ rw e record { batches = refl; stats = refl; recorder = refl; parser = refl }
  ]

  closed-Delivers :
      (now : ℕ) (bytes : List ℕ) (t : LegacyIngressRuntime ops) (rs : List PacketRecord)
      (g : Carrying ops)
      → Drains (append bytes t.parser) rs g.runtime.parser
      → Carries ops rs (opened ops bytes t) g
      → Delivers t bytes rs (closed ops now g).0 (closed ops now g).1
  unfolding closed opened
  closed-Delivers now bytes t rs g drains carried =
      let f = flush_batch ops g in
      let w = with_recorder ops (ops.flush_pending false) f in
      let moves = flush_batch-Moves ops g in
      let asks = with_recorder-Asks ops (ops.flush_pending false) f in
      let k = reported-Keeps now g w in
      let v = carried.carrying (record { sized = tt; open_ = omega arith }) in
      let s = flush_sized ops g g.batch refl (omega (arith, v.open_)) v.sized in
      record {
        drained =
            subst (λ p. Drains (append bytes t.parser) rs p)
              (sym (k.parser ∙ asks.parser_as ∙ ap (λ x. x.parser) moves.runtime_as)) drains;
        batched =
            ap (λ bs. flat bs) k.batches
            ∙ ap (λ r. flat r.frame_batches) asks.result_as
            ∙ sym (append-nil (flat f.result.frame_batches))
            ∙ ap (λ b. flat f.result.frame_batches ++ b) (sym (flushed-empty g g.batch refl))
            ∙ moves.frames_as
            ∙ carried.batched;
        sized =
            subst (λ bs. All IsBatch bs)
              (sym (k.batches ∙ ap (λ r. r.frame_batches) asks.result_as)) s.sized;
        counted = k.stats ∙ ap (λ r. r.stats) asks.result_as ∙ moves.stats_as ∙ carried.counted;
        recorder =
            k.recorder
            ∙ asks.recorder_as
            ∙ ap (λ r. if ops.is_active r then ops.flush_pending false r else r)
                (ap (λ x. x.recorder) moves.runtime_as ∙ carried.recorder);
      }

  -- On bytes that are not empty, ingest returns. The frames it hands over are exactly those among the
  -- records that takeOne returns until it has none, in order, in batches of 1 to 192 frames, and its
  -- statistics are those among them, in order; while the recorder is active, it was given the bytes of
  -- each frame and a flush at each statistics, in the order of the records, and a flush at the end.
  pub ingest-legacy-Delivers :
      (now : ℕ) (b : ℕ) (bs : List ℕ) (t : LegacyIngressRuntime ops)
      → (rs : List PacketRecord) × (result : LegacyResult) × (t2 : LegacyIngressRuntime ops)
        × (ingest ops now (b ∷ bs) t ≡ some (result, t2))
        × Delivers t (b ∷ bs) rs result t2
  unfolding ingest opened
  ingest-legacy-Delivers now b bs t =
      let g = opened ops (b ∷ bs) t in
      let (h, rs, e, drains, carried) =
        ingest_loop-Looped (suc (length g.runtime.parser.buffer)) g (omega arith) in
      (
        rs,
        (closed ops now h).0,
        (closed ops now h).1,
        rw (e, ingest) refl,
        closed-Delivers now (b ∷ bs) t rs h drains carried,
      )
