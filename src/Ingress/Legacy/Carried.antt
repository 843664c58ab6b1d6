-- ===== src/Ingress/Legacy/Carried.antt =====
-- What a record does to the locals of ingest of src/backend/transport/LegacyIngressRuntime.cpp.
use vsm_field_workstation.Prelude.{
  ◌≤◌, ◌<◌, ◌≡◌, refl, sym, ap, ◌∙◌, subst, false, Bool-cases, inl, inr, List, [], ◌∷◌, ◌++◌,
  if◌then◌else◌, arith, leb, length, length-append, append_assoc, append-nil, All, All-append,
}
use vsm_field_workstation.Packet.Stream.{FrameRecord, StatsRecord, PacketRecord, PacketParser}
use vsm_field_workstation.Ingress.Typed.Batches.{flat, flat-append}
use vsm_field_workstation.Ingress.Legacy.{
  RecorderOps, Carrying, flush_batch, with_recorder, push_stats, push_frame, flush_if_full, take_in,
  with_parser,
}

abbrev pub frames_of : List PacketRecord → List FrameRecord
frames_of [] = []
frames_of (PacketRecord.frame f ∷ rs) = f ∷ frames_of rs
frames_of (PacketRecord.stats s ∷ rs) = frames_of rs

abbrev pub stats_of : List PacketRecord → List StatsRecord
stats_of [] = []
stats_of (PacketRecord.frame f ∷ rs) = stats_of rs
stats_of (PacketRecord.stats s ∷ rs) = s ∷ stats_of rs

abbrev pub IsBatch : List FrameRecord → Type 0
IsBatch b = (0 < length b) × (length b ≤ 192)

module _ {R : Type 0} (ops : RecorderOps R) where
  -- What the recorder is asked, while it is active: each frame in turn, and a flush at each statistics.
  abbrev pub asked : PacketRecord → R → R
  asked (PacketRecord.frame f) r = if ops.is_active r then ops.append20 f.raw20 r else r
  asked (PacketRecord.stats s) r = if ops.is_active r then ops.flush_pending false r else r

  abbrev pub recorded : List PacketRecord → R → R
  recorded [] r = r
  recorded (x ∷ xs) r = recorded xs (asked x r)

  abbrev pub frames : Carrying ops → List FrameRecord
  frames g = flat g.result.frame_batches ++ g.batch

  pub record IsCarrying (g : Carrying ops) : Type 0 where
    pub sized : All IsBatch g.result.frame_batches
    pub open_ : length g.batch < 192

  -- From g to h the records were taken in.
  pub record Carries (rs : List PacketRecord) (g h : Carrying ops) : Type 0 where
    pub batched : frames h ≡ frames g ++ frames_of rs
    pub counted : h.result.stats ≡ g.result.stats ++ stats_of rs
    pub carrying : IsCarrying g → IsCarrying h
    pub recorder : h.runtime.recorder ≡ recorded rs g.runtime.recorder

  -- A step that moves frames between batch and batches only.
  pub record Moves (g h : Carrying ops) : Type 0 where
    pub frames_as : frames h ≡ frames g
    pub stats_as : h.result.stats ≡ g.result.stats
    pub runtime_as : h.runtime ≡ g.runtime

  flush_cases :
      (g : Carrying ops) (b : List FrameRecord) → g.batch ≡ b → Moves g (flush_batch ops g)
  unfolding flush_batch
  flush_cases g [] e = rw e record { frames_as = refl; stats_as = refl; runtime_as = refl }
  flush_cases g (f ∷ fs) e = rw e record {
    frames_as =
        append-nil (flat (g.result.frame_batches ++ ((f ∷ fs) ∷ [])))
        ∙ flat-append g.result.frame_batches (f ∷ fs);
    stats_as = refl;
    runtime_as = refl;
  }

  pub flush_sized :
      (g : Carrying ops) (b : List FrameRecord)
      → g.batch ≡ b
      → length g.batch ≤ 192
      → All IsBatch g.result.frame_batches
      → IsCarrying (flush_batch ops g)
  unfolding flush_batch
  flush_sized g [] e small v = rw e record { sized = v; open_ = omega arith }
  flush_sized g (f ∷ fs) e small v = rw e record {
    sized =
        All-append IsBatch g.result.frame_batches ((f ∷ fs) ∷ []) v
          ((omega arith, omega (arith, small, ap (λ b. length b) e)), tt);
    open_ = omega arith;
  }

  pub record Asks (f : R → R) (g h : Carrying ops) : Type 0 where
    pub result_as : h.result ≡ g.result
    pub batch_as : h.batch ≡ g.batch
    pub recorder_as :
        h.runtime.recorder
        ≡ (if ops.is_active g.runtime.recorder then f g.runtime.recorder else g.runtime.recorder)
    pub parser_as : h.runtime.parser ≡ g.runtime.parser

  pub with_recorder-Asks : (f : R → R) (g : Carrying ops) → Asks f g (with_recorder ops f g)
  unfolding with_recorder
  with_recorder-Asks f g = elim (Bool-cases (ops.is_active g.runtime.recorder)) [
    | inl e ↦
        rw e record { result_as = refl; batch_as = refl; recorder_as = rw e refl; parser_as = refl }
    | inr e ↦
        rw e record { result_as = refl; batch_as = refl; recorder_as = rw e refl; parser_as = refl }
  ]

  pub flush_batch-Moves : (g : Carrying ops) → Moves g (flush_batch ops g)
  flush_batch-Moves g = flush_cases g g.batch refl

  flush_if_full-Moves : (g : Carrying ops) → Moves g (flush_if_full ops g)
  unfolding flush_if_full
  flush_if_full-Moves g = elim (Bool-cases (leb 192 (length g.batch))) [
    | inl e ↦ rw e (flush_batch-Moves g)
    | inr e ↦ rw e record { frames_as = refl; stats_as = refl; runtime_as = refl }
  ]

  flush_if_full-IsCarrying :
      (g : Carrying ops)
      → length g.batch ≤ 192
      → All IsBatch g.result.frame_batches
      → IsCarrying (flush_if_full ops g)
  unfolding flush_if_full
  flush_if_full-IsCarrying g small v = elim (Bool-cases (leb 192 (length g.batch))) [
    | inl e ↦ rw e (flush_sized g g.batch refl small v)
    | inr e ↦ rw e record { sized = v; open_ = ground (arith, e) }
  ]

  stats-Carries :
      (s : StatsRecord) (g : Carrying ops)
      → Carries (PacketRecord.stats s ∷ []) g (take_in ops (PacketRecord.stats s) g)
  unfolding take_in push_stats
  stats-Carries s g =
      let f = flush_batch ops g in
      let moves = flush_batch-Moves g in
      let asks = with_recorder-Asks (ops.flush_pending false) f in
      record {
        batched =
            ap (λ r. flat r.frame_batches ++ (with_recorder ops (ops.flush_pending false) f).batch)
              asks.result_as
            ∙ ap (λ b. flat f.result.frame_batches ++ b) asks.batch_as
            ∙ moves.frames_as
            ∙ sym (append-nil (frames g));
        counted =
            ap (λ r. r.stats ++ (s ∷ [])) asks.result_as ∙ ap (λ xs. xs ++ (s ∷ [])) moves.stats_as;
        carrying = λ v.
            let w = flush_sized g g.batch refl (omega (arith, v.open_)) v.sized in
            record {
              sized = subst (λ r. All IsBatch r.frame_batches) (sym asks.result_as) w.sized;
              open_ = omega (arith, w.open_, ap (λ b. length b) asks.batch_as);
            };
        recorder =
            asks.recorder_as
            ∙ ap
                (λ t.
                  if ops.is_active t.recorder
                  then ops.flush_pending false t.recorder
                  else t.recorder)
                moves.runtime_as;
      }

  frame-Carries :
      (x : FrameRecord) (g : Carrying ops)
      → Carries (PacketRecord.frame x ∷ []) g (take_in ops (PacketRecord.frame x) g)
  unfolding take_in push_frame
  frame-Carries x g =
      let p = push_frame ops x g in
      let asks = with_recorder-Asks (ops.append20 x.raw20) p in
      let w = with_recorder ops (ops.append20 x.raw20) p in
      let moves = flush_if_full-Moves w in
      record {
        batched =
            moves.frames_as
            ∙ ap (λ r. flat r.frame_batches ++ w.batch) asks.result_as
            ∙ ap (λ b. flat g.result.frame_batches ++ b) asks.batch_as
            ∙ sym (append_assoc (flat g.result.frame_batches) g.batch (x ∷ []));
        counted =
            moves.stats_as ∙ ap (λ r. r.stats) asks.result_as ∙ sym (append-nil g.result.stats);
        carrying = λ v.
            flush_if_full-IsCarrying w
              (omega
                (arith, v.open_, ap (λ b. length b) asks.batch_as, length-append g.batch (x ∷ [])))
              (subst (λ r. All IsBatch r.frame_batches) (sym asks.result_as) v.sized);
        recorder = ap (λ t. t.recorder) moves.runtime_as ∙ asks.recorder_as;
      }

  pub take_in-Carries : (r : PacketRecord) (g : Carrying ops) → Carries (r ∷ []) g (take_in ops r g)
  take_in-Carries (PacketRecord.stats s) g = stats-Carries s g
  take_in-Carries (PacketRecord.frame x) g = frame-Carries x g

  pub take_in-parser :
      (r : PacketRecord) (g : Carrying ops) → (take_in ops r g).runtime.parser ≡ g.runtime.parser
  unfolding take_in push_stats push_frame
  take_in-parser (PacketRecord.stats s) g =
      (with_recorder-Asks (ops.flush_pending false) (flush_batch ops g)).parser_as
      ∙ ap (λ t. t.parser) (flush_batch-Moves g).runtime_as
  take_in-parser (PacketRecord.frame x) g =
      let w = with_recorder ops (ops.append20 x.raw20) (push_frame ops x g) in
      ap (λ t. t.parser) (flush_if_full-Moves w).runtime_as
      ∙ (with_recorder-Asks (ops.append20 x.raw20) (push_frame ops x g)).parser_as

  frames_of-append :
      (xs ys : List PacketRecord) → frames_of (xs ++ ys) ≡ frames_of xs ++ frames_of ys
  frames_of-append [] ys = refl
  frames_of-append (PacketRecord.frame f ∷ xs) ys = ap (λ fs. f ∷ fs) (frames_of-append xs ys)
  frames_of-append (PacketRecord.stats s ∷ xs) ys = frames_of-append xs ys

  stats_of-append : (xs ys : List PacketRecord) → stats_of (xs ++ ys) ≡ stats_of xs ++ stats_of ys
  stats_of-append [] ys = refl
  stats_of-append (PacketRecord.frame f ∷ xs) ys = stats_of-append xs ys
  stats_of-append (PacketRecord.stats s ∷ xs) ys = ap (λ ss. s ∷ ss) (stats_of-append xs ys)

  recorded-append :
      (xs ys : List PacketRecord) (r : R) → recorded (xs ++ ys) r ≡ recorded ys (recorded xs r)
  recorded-append [] ys r = refl
  recorded-append (x ∷ xs) ys r = recorded-append xs ys (asked x r)

  pub with_parser-Carries :
      (p : PacketParser) (g : Carrying ops) → Carries [] g (with_parser ops p g)
  unfolding with_parser
  with_parser-Carries p g = record {
    batched = sym (append-nil (frames g));
    counted = sym (append-nil g.result.stats);
    carrying = λ v. record { sized = v.sized; open_ = v.open_ };
    recorder = refl;
  }

  pub Carries-trans :
      (xs ys : List PacketRecord) (g m h : Carrying ops)
      → Carries xs g m
      → Carries ys m h
      → Carries (xs ++ ys) g h
  Carries-trans xs ys g m h a b = record {
    batched =
        b.batched
        ∙ ap (λ fs. fs ++ frames_of ys) a.batched
        ∙ append_assoc (frames g) (frames_of xs) (frames_of ys)
        ∙ ap (λ fs. frames g ++ fs) (sym (frames_of-append xs ys));
    counted =
        b.counted
        ∙ ap (λ ss. ss ++ stats_of ys) a.counted
        ∙ append_assoc g.result.stats (stats_of xs) (stats_of ys)
        ∙ ap (λ ss. g.result.stats ++ ss) (sym (stats_of-append xs ys));
    carrying = λ v. b.carrying (a.carrying v);
    recorder =
        b.recorder
        ∙ ap (λ r. recorded ys r) a.recorder
        ∙ sym (recorded-append xs ys g.runtime.recorder);
  }
