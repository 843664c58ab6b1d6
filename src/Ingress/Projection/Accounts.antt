-- ===== src/Ingress/Projection/Accounts.antt =====
-- The counts of src/backend/transport/LiveProjectionRuntime.cpp over its calls.
use vsm_field_workstation.Prelude.{
  ℕ, suc, ◌+◌, ◌%◌, ◌^◌, ◌≤◌, ◌≡◌, refl, ap, ◌∙◌, true, false, Bool-cases, inl, inr, Option-cases,
  arith, ◌==◌, length, find, insert, held, length-remove, IsMap, insert-IsMap,
}
use vsm_field_workstation.Typed.{TypedRecord}
use vsm_field_workstation.Typed.Records.{TypedCanRawRecord, TypedControlAckRecord}
use vsm_field_workstation.Ingress.Projection.{
  Status, Bucket, LiveProjectionRuntime, is_some, contains_key, note_sampled, Projecting,
  note_observed_evidence, queue_accepted_ack, queue_control_tx, queue_control_feedback,
  observe_evidence, push_critical, note_projected_evidence, take_ack, take_can_tx, projection_key,
}

-- Of the control evidence that was observed, each record was projected, was replaced by a later one of
-- its key, or waits; `extra` records are observed and not yet put anywhere.
pub record Balanced (extra : ℕ) (p : LiveProjectionRuntime) : Type 0 where
  pub acks : IsMap p.pending_accepted_control_ack_by_key
  pub audits : IsMap p.pending_control_tx_by_key
  pub feedback : IsMap p.pending_control_feedback_rx_by_key
  pub evidence :
      p.status.observed_control_evidence_records % 2 ^ 64
      ≡ (p.status.projected_control_evidence_records
          + p.status.sampled_control_evidence_records
          + (length p.pending_accepted_control_ack_by_key
              + length p.pending_control_tx_by_key
              + length p.pending_control_feedback_rx_by_key)
          + extra)
        % 2 ^ 64

-- A record that is put into a bucket is a new one there, or is counted as one that replaces another.
module _ (key : ℕ) (r : TypedRecord) (b : Bucket) (s : Status) (v : IsMap b) where
  note_sampled-count :
      ((note_sampled key b s).sampled_control_evidence_records + length (insert key r b)) % 2 ^ 64
      ≡ (s.sampled_control_evidence_records + length b + 1) % 2 ^ 64
  unfolding note_sampled contains_key insert
  note_sampled-count = elim (Option-cases (find key b)) [
    | inl e ↦
        let no_ : contains_key key b ≡ false = ap is_some e in
        rw no_ (omega (arith, length-remove key b v, ap held e))
    | inr (old, e) ↦
        let yes_ : contains_key key b ≡ true = ap is_some e in
        rw yes_ (omega (arith, length-remove key b v, ap held e))
  ]

  note_sampled-observed :
      (note_sampled key b s).observed_control_evidence_records ≡ s.observed_control_evidence_records
  unfolding note_sampled
  note_sampled-observed = ground arith

  note_sampled-projected :
      (note_sampled key b s).projected_control_evidence_records
      ≡ s.projected_control_evidence_records
  unfolding note_sampled
  note_sampled-projected = ground arith

queue_accepted_ack-Balanced :
    (key : ℕ) (r : TypedRecord) (g : Projecting)
    → Balanced 1 g.runtime
    → Balanced 0 (queue_accepted_ack key r g).runtime
unfolding queue_accepted_ack
queue_accepted_ack-Balanced key r g v =
    let b = g.runtime.pending_accepted_control_ack_by_key in
    let s = g.runtime.status in
    record {
      acks = insert-IsMap key r b v.acks;
      audits = v.audits;
      feedback = v.feedback;
      evidence = omega (
        arith,
        v.evidence,
        note_sampled-count key r b s v.acks,
        note_sampled-observed key r b s v.acks,
        note_sampled-projected key r b s v.acks,
      );
    }

queue_control_tx-Balanced :
    (key : ℕ) (r : TypedRecord) (g : Projecting)
    → Balanced 1 g.runtime
    → Balanced 0 (queue_control_tx key r g).runtime
unfolding queue_control_tx
queue_control_tx-Balanced key r g v =
    let b = g.runtime.pending_control_tx_by_key in
    let s = g.runtime.status in
    record {
      acks = v.acks;
      audits = insert-IsMap key r b v.audits;
      feedback = v.feedback;
      evidence = omega (
        arith,
        v.evidence,
        note_sampled-count key r b s v.audits,
        note_sampled-observed key r b s v.audits,
        note_sampled-projected key r b s v.audits,
      );
    }

pub queue_control_feedback-Balanced :
    (key : ℕ) (r : TypedRecord) (g : Projecting)
    → Balanced 1 g.runtime
    → Balanced 0 (queue_control_feedback key r g).runtime
unfolding queue_control_feedback
queue_control_feedback-Balanced key r g v =
    let b = g.runtime.pending_control_feedback_rx_by_key in
    let s = g.runtime.status in
    record {
      acks = v.acks;
      audits = v.audits;
      feedback = insert-IsMap key r b v.feedback;
      evidence = omega (
        arith,
        v.evidence,
        note_sampled-count key r b s v.feedback,
        note_sampled-observed key r b s v.feedback,
        note_sampled-projected key r b s v.feedback,
      );
    }

pub observe_evidence-Balanced :
    (g : Projecting) → Balanced 0 g.runtime → Balanced 1 (observe_evidence g).runtime
unfolding observe_evidence note_observed_evidence
observe_evidence-Balanced g v = record {
  acks = v.acks;
  audits = v.audits;
  feedback = v.feedback;
  evidence = omega (arith, v.evidence);
}

pub note_projected_evidence-Balanced :
    (n : ℕ) (g : Projecting)
    → Balanced n g.runtime
    → Balanced 0 (note_projected_evidence n g).runtime
unfolding note_projected_evidence
note_projected_evidence-Balanced n g v = record {
  acks = v.acks;
  audits = v.audits;
  feedback = v.feedback;
  evidence = omega (arith, v.evidence);
}

pub push_critical-Balanced :
    (r : TypedRecord) (n : ℕ) (g : Projecting)
    → Balanced n g.runtime
    → Balanced n (push_critical r g).runtime
unfolding push_critical
push_critical-Balanced r n g v = record {
  acks = v.acks;
  audits = v.audits;
  feedback = v.feedback;
  evidence = v.evidence;
}

-- The received frames are as they were.
pub record SameFrames (g h : Projecting) : Type 0 where
  pub observed : h.runtime.status.observed_can_rx_frames ≡ g.runtime.status.observed_can_rx_frames
  pub projected :
      h.runtime.status.projected_can_rx_frames ≡ g.runtime.status.projected_can_rx_frames
  pub sampled : h.runtime.status.sampled_can_rx_frames ≡ g.runtime.status.sampled_can_rx_frames
  pub in_batch : h.observed_can_rx_in_batch ≡ g.observed_can_rx_in_batch
  pub frames : h.coalesced_frames ≡ g.coalesced_frames

pub SameFrames-trans : (g m h : Projecting) → SameFrames g m → SameFrames m h → SameFrames g h
SameFrames-trans g m h a b = record {
  observed = b.observed ∙ a.observed;
  projected = b.projected ∙ a.projected;
  sampled = b.sampled ∙ a.sampled;
  in_batch = b.in_batch ∙ a.in_batch;
  frames = b.frames ∙ a.frames;
}

pub observe_evidence-SameFrames : (g : Projecting) → SameFrames g (observe_evidence g)
unfolding observe_evidence note_observed_evidence
observe_evidence-SameFrames g = record {
  observed = refl;
  projected = refl;
  sampled = refl;
  in_batch = refl;
  frames = refl;
}

pub critical-SameFrames : (r : TypedRecord) (g : Projecting) → SameFrames g (push_critical r g)
unfolding push_critical
critical-SameFrames r g = record {
  observed = refl;
  projected = refl;
  sampled = refl;
  in_batch = refl;
  frames = refl;
}

note_projected_evidence-SameFrames :
    (n : ℕ) (g : Projecting) → SameFrames g (note_projected_evidence n g)
unfolding note_projected_evidence
note_projected_evidence-SameFrames n g = record {
  observed = refl;
  projected = refl;
  sampled = refl;
  in_batch = refl;
  frames = refl;
}

queue_accepted_ack-SameFrames :
    (key : ℕ) (r : TypedRecord) (g : Projecting) → SameFrames g (queue_accepted_ack key r g)
unfolding queue_accepted_ack
queue_accepted_ack-SameFrames key r g = record {
  observed = ground arith;
  projected = ground arith;
  sampled = ground arith;
  in_batch = refl;
  frames = refl;
}

queue_control_tx-SameFrames :
    (key : ℕ) (r : TypedRecord) (g : Projecting) → SameFrames g (queue_control_tx key r g)
unfolding queue_control_tx
queue_control_tx-SameFrames key r g = record {
  observed = ground arith;
  projected = ground arith;
  sampled = ground arith;
  in_batch = refl;
  frames = refl;
}

pub queue_control_feedback-SameFrames :
    (key : ℕ) (r : TypedRecord) (g : Projecting) → SameFrames g (queue_control_feedback key r g)
unfolding queue_control_feedback
queue_control_feedback-SameFrames key r g = record {
  observed = ground arith;
  projected = ground arith;
  sampled = ground arith;
  in_batch = refl;
  frames = refl;
}

-- The accounts inside a batch, `k` records of which have been taken.
pub record Tally (k : ℕ) (g : Projecting) : Type 0 where
  pub balanced : Balanced 0 g.runtime
  pub received :
      g.runtime.status.observed_can_rx_frames % 2 ^ 64
      ≡ (g.runtime.status.projected_can_rx_frames + g.runtime.status.sampled_can_rx_frames
          + g.observed_can_rx_in_batch)
        % 2 ^ 64
  pub room : length g.coalesced_frames ≤ g.observed_can_rx_in_batch
  pub few : g.observed_can_rx_in_batch ≤ k

pub Tally-same :
    (k : ℕ) (g h : Projecting) → SameFrames g h → Balanced 0 h.runtime → Tally k g → Tally (suc k) h
Tally-same k g h s b t = record {
  balanced = b;
  received = omega (arith, t.received, s.observed, s.projected, s.sampled, s.in_batch);
  room = omega (arith, t.room, s.in_batch, ap (λ xs. length xs) s.frames);
  few = omega (arith, t.few, s.in_batch);
}

pub take_ack-Tally :
    (k : ℕ) (r : TypedRecord) (ack : TypedControlAckRecord) (g : Projecting)
    → Tally k g
    → Tally (suc k) (take_ack r ack g)
unfolding take_ack
take_ack-Tally k r ack g t =
    let key = projection_key ack.target_bus ack.target_can_id in
    let o = observe_evidence g in
    let one = observe_evidence-Balanced g t.balanced in
    elim (Bool-cases (ack.status == 0)) [
      | inl e ↦ rw e (
          Tally-same k g _
            (SameFrames-trans g (push_critical r o) _
              (SameFrames-trans g o (push_critical r o) (observe_evidence-SameFrames g)
                (critical-SameFrames r o))
              (note_projected_evidence-SameFrames 1 (push_critical r o)))
            (note_projected_evidence-Balanced 1 (push_critical r o)
              (push_critical-Balanced r 1 o one))
            t)
      | inr e ↦ rw e (
          Tally-same k g _
            (SameFrames-trans g o _ (observe_evidence-SameFrames g)
              (queue_accepted_ack-SameFrames key r o))
            (queue_accepted_ack-Balanced key r o one) t)
    ]

pub take_can_tx-Tally :
    (k : ℕ) (r : TypedRecord) (can : TypedCanRawRecord) (g : Projecting)
    → Tally k g
    → Tally (suc k) (take_can_tx r can g)
unfolding take_can_tx
take_can_tx-Tally k r can g t =
    let key = projection_key can.bus can.can_id in
    let o = observe_evidence g in
    Tally-same k g _
      (SameFrames-trans g o _ (observe_evidence-SameFrames g) (queue_control_tx-SameFrames key r o))
      (queue_control_tx-Balanced key r o (observe_evidence-Balanced g t.balanced)) t
