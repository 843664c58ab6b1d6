-- ===== src/Ingress/Projection/Handed.antt =====
-- The counts of src/backend/transport/LiveProjectionRuntime.cpp against the records that go in and those
-- that come out: the end of a batch.
use vsm_field_workstation.Prelude.{
  ℕ, ◌+◌, ◌%◌, ◌^◌, ◌≡◌, refl, ap, Bool, ◌||◌, true, false, Bool-cases, inl, inr, List, [], ◌∷◌,
  ◌++◌, arith, ltb, length, length-append,
}
use vsm_field_workstation.Typed.{TypedRecord}
use vsm_field_workstation.Packet.Stream.{FrameRecord}
use vsm_field_workstation.Ingress.Typed.{has_elapsed}
use vsm_field_workstation.Ingress.Projection.{
  LiveProjectionRuntime, IngestResult, Projecting, note_projected_evidence, take_records,
  control_evidence_flush_due, status_due, take_sorted_records, flush_pending_control_evidence,
  cut_frames, count_output, projection_status_interval_ms, begun, flush_if_due, ingest, reset,
}
use vsm_field_workstation.Ingress.Projection.Counted.Records.{take_records-Steps}
use vsm_field_workstation.Ingress.Projection.Counted.{
  board_of, received_of, evidence_of, sum_of, Steps, Steps-trans, Steps-same, SameCounts,
}

-- What went in and came out since the last reset: the records of the board, the control evidence and the
-- received frames that were given to ingest, and the critical records and the frames that it returned.
pub record Handover : Type 0 where
  pub board : ℕ
  pub evidence : ℕ
  pub received : ℕ
  pub critical : ℕ
  pub frames : ℕ

abbrev pub nothing : Handover
nothing = record { board = 0; evidence = 0; received = 0; critical = 0; frames = 0 }

abbrev pub with_batch : List TypedRecord → IngestResult → Handover → Handover
with_batch rs result h = record {
  board = h.board + sum_of board_of rs;
  evidence = h.evidence + sum_of evidence_of rs;
  received = h.received + sum_of received_of rs;
  critical = h.critical + length result.critical_records;
  frames = h.frames + length result.projected_frames;
}

-- The status counts what went in and came out, modulo 2^64: all the evidence and the received frames that
-- went in are observed; the critical records that came out are those of the board and the projected
-- evidence; and the frames that came out are those projected.
pub record Handed (h : Handover) (p : LiveProjectionRuntime) : Type 0 where
  pub evidence_in : p.status.observed_control_evidence_records % 2 ^ 64 ≡ h.evidence % 2 ^ 64
  pub received_in : p.status.observed_can_rx_frames % 2 ^ 64 ≡ h.received % 2 ^ 64
  pub critical_out :
      h.critical % 2 ^ 64 ≡ (h.board + p.status.projected_control_evidence_records) % 2 ^ 64
  pub frames_out : h.frames % 2 ^ 64 ≡ p.status.projected_can_rx_frames % 2 ^ 64

pub reset-Handed : (p : LiveProjectionRuntime) → Handed nothing (reset p)
unfolding reset
reset-Handed p = record {
  evidence_in = refl;
  received_in = refl;
  critical_out = refl;
  frames_out = refl;
}

module _ (sort_frames : List FrameRecord → List FrameRecord)
    (sort_records : List TypedRecord → List TypedRecord) where
  cut_frames-same : (g : Projecting) → SameCounts g (cut_frames sort_frames sort_records g)
  unfolding cut_frames
  cut_frames-same g =
      elim (Bool-cases (ltb g.runtime.max_frames_per_batch (length g.coalesced_frames))) [
        | inl e ↦ rw e (refl, refl, refl, refl, refl)
        | inr e ↦ rw e (refl, refl, refl, refl, refl)
      ]

  flush_pending_control_evidence-Steps :
      (now : ℕ) (g : Projecting)
      → Steps 0 0 0 g (flush_pending_control_evidence sort_frames sort_records now g)
  unfolding flush_pending_control_evidence note_projected_evidence
  flush_pending_control_evidence-Steps now g =
      let sorted = take_sorted_records sort_frames sort_records in
      let acks = sorted g.runtime.pending_accepted_control_ack_by_key in
      let audits = sorted g.runtime.pending_control_tx_by_key in
      let feedback = sorted g.runtime.pending_control_feedback_rx_by_key in
      record {
        hands = omega (
          arith,
          length-append g.critical (acks ++ (audits ++ feedback)),
          length-append acks (audits ++ feedback),
          length-append audits feedback,
        );
        observed = omega arith;
        arrived = omega arith;
        projected = omega arith;
      }

  flush_if_due-Steps :
      (now : ℕ) (g : Projecting) → Steps 0 0 0 g (flush_if_due sort_frames sort_records now g)
  unfolding flush_if_due
  flush_if_due-Steps now g = elim (Bool-cases (control_evidence_flush_due now g.runtime)) [
    | inl e ↦ rw e (flush_pending_control_evidence-Steps now g)
    | inr e ↦ rw e record {
      hands = omega arith;
      observed = omega arith;
      arrived = omega arith;
      projected = omega arith;
    }
  ]

  status_due-status :
      (now : ℕ) (sampled : Bool) (p : LiveProjectionRuntime)
      → (status_due now sampled p).1.status ≡ p.status
  unfolding status_due
  status_due-status now true p = refl
  status_due-status now false p =
      elim (Bool-cases (has_elapsed p.status_timer now projection_status_interval_ms)) [
        | inl e ↦ rw e refl
        | inr e ↦ rw e refl
      ]

  -- What a batch that is not empty adds.
  pub ingest-Handed :
      (now : ℕ) (rs : List TypedRecord) (p : LiveProjectionRuntime) (h : Handover)
      → Handed h p
      → Handed
          (with_batch rs (ingest sort_frames sort_records now rs p).0 h)
          (ingest sort_frames sort_records now rs p).1
  unfolding ingest count_output
  ingest-Handed now [] p h v = record {
    evidence_in = omega (arith, v.evidence_in);
    received_in = omega (arith, v.received_in);
    critical_out = omega (arith, v.critical_out);
    frames_out = omega (arith, v.frames_out);
  }
  ingest-Handed now (r ∷ rs) p h v =
      let started = take_records (r ∷ rs) (begun p) in
      let cut = cut_frames sort_frames sort_records started in
      let g = flush_if_due sort_frames sort_records now cut in
      let frames = sort_frames cut.coalesced_frames in
      let counted = count_output (length (r ∷ rs)) frames g in
      let board = sum_of board_of (r ∷ rs) in
      let evidence = sum_of evidence_of (r ∷ rs) in
      let received = sum_of received_of (r ∷ rs) in
      let moved =
        Steps-trans board evidence received 0 0 0 (begun p) cut g
          (Steps-same board evidence received (begun p) started cut
            (take_records-Steps (r ∷ rs) (begun p)) (cut_frames-same started))
          (flush_if_due-Steps now cut) in
      let sampled =
        ltb (length frames) g.observed_can_rx_in_batch || g.sampled_control_evidence_in_batch in
      let same = status_due-status now sampled (record (g.runtime) { status = counted }) in
      record {
        evidence_in = omega (
          arith,
          v.evidence_in,
          moved.observed,
          ap (λ s. s.observed_control_evidence_records) same,
        );
        received_in =
            omega (arith, v.received_in, moved.arrived, ap (λ s. s.observed_can_rx_frames) same);
        critical_out = omega (
          arith,
          v.critical_out,
          moved.hands,
          ap (λ s. s.projected_control_evidence_records) same,
        );
        frames_out =
            omega (arith, v.frames_out, moved.projected, ap (λ s. s.projected_can_rx_frames) same);
      }
