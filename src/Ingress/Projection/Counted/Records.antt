-- ===== src/Ingress/Projection/Counted/Records.antt =====
-- The counts of src/backend/transport/LiveProjectionRuntime.cpp against the records that go in: one record.
use vsm_field_workstation.Prelude.{
  ℕ, ◌≡◌, refl, true, false, ◌||◌, Bool-cases, inl, inr, Option, none, some, List, [], ◌∷◌, ◌++◌,
  arith, ◌==◌, length, length-append, set, find, insert,
}
use vsm_field_workstation.Typed.{TypedRecord, is_type}
use vsm_field_workstation.Typed.Records.{TypedCanRawRecord, TypedControlAckRecord}
use vsm_field_workstation.Typed.Decode.{decode_can_raw, decode_control_ack}
use vsm_field_workstation.Packet.Stream.{FrameRecord}
use vsm_field_workstation.Ingress.Projection.{
  Projecting, note_sampled, note_observed_evidence, queue_accepted_ack, queue_control_tx,
  queue_control_feedback, observe_evidence, count_can_rx, coalesce, observe_can_rx, take_can_rx,
  push_critical, note_projected_evidence, take_ack, take_can_tx, take_record, take_records,
  projection_key, to_frame_record, is_control_can_id, is_among, is_always_critical_record,
}
use vsm_field_workstation.Ingress.Projection.Critical.{is_of_board}
use vsm_field_workstation.Ingress.Projection.Counted.{
  decoded, is_control_id, feedback_of, board_of, received_of, evidence_of, sum_of, Steps,
  Steps-trans, Steps-same, SameCounts,
}

still : (g : Projecting) → Steps 0 0 0 g g
still g = record {
  hands = omega arith;
  observed = omega arith;
  arrived = omega arith;
  projected = omega arith;
}

observe_evidence-Steps : (g : Projecting) → Steps 0 1 0 g (observe_evidence g)
unfolding observe_evidence note_observed_evidence
observe_evidence-Steps g = record {
  hands = omega arith;
  observed = omega arith;
  arrived = omega arith;
  projected = omega arith;
}

observe_can_rx-Steps :
    (can : TypedCanRawRecord) (g : Projecting) → Steps 0 0 1 g (observe_can_rx can g)
unfolding observe_can_rx count_can_rx
observe_can_rx-Steps can g = record {
  hands = omega arith;
  observed = omega arith;
  arrived = omega arith;
  projected = omega arith;
}

queue_accepted_ack-same :
    (key : ℕ) (r : TypedRecord) (g : Projecting) → SameCounts g (queue_accepted_ack key r g)
unfolding queue_accepted_ack note_sampled
queue_accepted_ack-same key r g = (refl, ground arith, ground arith, ground arith, ground arith)

queue_control_tx-same :
    (key : ℕ) (r : TypedRecord) (g : Projecting) → SameCounts g (queue_control_tx key r g)
unfolding queue_control_tx note_sampled
queue_control_tx-same key r g = (refl, ground arith, ground arith, ground arith, ground arith)

queue_control_feedback-same :
    (key : ℕ) (r : TypedRecord) (g : Projecting) → SameCounts g (queue_control_feedback key r g)
unfolding queue_control_feedback note_sampled
queue_control_feedback-same key r g = (refl, ground arith, ground arith, ground arith, ground arith)

coalesce-same :
    (key : ℕ) (frame : FrameRecord) (g : Projecting) → SameCounts g (coalesce key frame g)
unfolding coalesce
coalesce-same key frame g = placed (find key g.frame_index_by_key)
  where
    placed :
        (o : Option ℕ)
        → SameCounts g (elim o as (λ _. Projecting) [
          | some i ↦ record g { coalesced_frames = set g.coalesced_frames i frame }
          | none ↦ record g {
            frame_index_by_key = insert key (length g.coalesced_frames) g.frame_index_by_key;
            coalesced_frames = g.coalesced_frames ++ (frame ∷ []);
          }
        ])
    placed none = (refl, refl, refl, refl, refl)
    placed (some i) = (refl, refl, refl, refl, refl)

is_control_can_id-is_control_id : (id : ℕ) → is_control_can_id id ≡ is_control_id id
unfolding is_control_can_id is_among
is_control_can_id-is_control_id id = ground arith

take_can_rx-Steps :
    (r : TypedRecord) (can : TypedCanRawRecord) (g : Projecting)
    → Steps 0 (feedback_of (some can)) 1 g (take_can_rx r can g)
unfolding take_can_rx
take_can_rx-Steps r can g =
    let key = projection_key can.bus can.can_id in
    let seen = observe_can_rx can g in
    let o = observe_evidence seen in
    let q = queue_control_feedback key r o in
    let same = is_control_can_id-is_control_id can.can_id in
    elim (Bool-cases (is_control_id can.can_id)) [
      | inl e ↦
          rw (same, e)
            (Steps-same 0 1 1 g q (coalesce key (to_frame_record r can) q)
              (Steps-same 0 1 1 g o q
                (Steps-trans 0 0 1 0 1 0 g seen o (observe_can_rx-Steps can g)
                  (observe_evidence-Steps seen))
                (queue_control_feedback-same key r o))
              (coalesce-same key (to_frame_record r can) q))
      | inr e ↦
          rw (same, e)
            (Steps-same 0 0 1 g seen (coalesce key (to_frame_record r can) seen)
              (observe_can_rx-Steps can g) (coalesce-same key (to_frame_record r can) seen))
    ]

refuse-Steps :
    (r : TypedRecord) (g : Projecting)
    → Steps 0 0 0 g (note_projected_evidence 1 (push_critical r g))
unfolding note_projected_evidence push_critical
refuse-Steps r g = record {
  hands = omega (arith, length-append g.critical (r ∷ []));
  observed = omega arith;
  arrived = omega arith;
  projected = omega arith;
}

take_ack-Steps :
    (r : TypedRecord) (ack : TypedControlAckRecord) (g : Projecting)
    → Steps 0 1 0 g (take_ack r ack g)
unfolding take_ack
take_ack-Steps r ack g =
    let o = observe_evidence g in
    let key = projection_key ack.target_bus ack.target_can_id in
    elim (Bool-cases (ack.status == 0)) [
      | inl e ↦ rw e (
          Steps-trans 0 1 0 0 0 0 g o (note_projected_evidence 1 (push_critical r o))
            (observe_evidence-Steps g) (refuse-Steps r o))
      | inr e ↦ rw e (
          Steps-same 0 1 0 g o (queue_accepted_ack key r o) (observe_evidence-Steps g)
            (queue_accepted_ack-same key r o))
    ]

take_can_tx-Steps :
    (r : TypedRecord) (can : TypedCanRawRecord) (g : Projecting)
    → Steps 0 1 0 g (take_can_tx r can g)
unfolding take_can_tx
take_can_tx-Steps r can g =
    let o = observe_evidence g in
    let key = projection_key can.bus can.can_id in
    Steps-same 0 1 0 g o (queue_control_tx key r o) (observe_evidence-Steps g)
      (queue_control_tx-same key r o)

push_critical-Steps : (r : TypedRecord) (g : Projecting) → Steps 1 0 0 g (push_critical r g)
unfolding push_critical
push_critical-Steps r g = record {
  hands = omega (arith, length-append g.critical (r ∷ []));
  observed = omega arith;
  arrived = omega arith;
  projected = omega arith;
}

as_rx-Steps :
    (r : TypedRecord) (g : Projecting) (o : Option TypedCanRawRecord)
    → Steps 0
        (feedback_of o)
        (decoded o)
        g
        (elim o as (λ _. Projecting) [ none ↦ g | some can ↦ take_can_rx r can g ])
as_rx-Steps r g none = still g
as_rx-Steps r g (some can) = take_can_rx-Steps r can g

as_ack-Steps :
    (r : TypedRecord) (g : Projecting) (o : Option TypedControlAckRecord)
    → Steps 0
        (decoded o)
        0
        g
        (elim o as (λ _. Projecting) [ none ↦ g | some ack ↦ take_ack r ack g ])
as_ack-Steps r g none = still g
as_ack-Steps r g (some ack) = take_ack-Steps r ack g

as_tx-Steps :
    (r : TypedRecord) (g : Projecting) (o : Option TypedCanRawRecord)
    → Steps 0
        (decoded o)
        0
        g
        (elim o as (λ _. Projecting) [ none ↦ g | some can ↦ take_can_tx r can g ])
as_tx-Steps r g none = still g
as_tx-Steps r g (some can) = take_can_tx-Steps r can g

not_of_board :
    (r : TypedRecord)
    → ((r.header.record_type == 1) || ((r.header.record_type == 6) || (r.header.record_type == 2)))
      ≡ true
    → is_of_board r ≡ false
not_of_board r e = ground (arith, e)

take_record-Steps :
    (r : TypedRecord) (g : Projecting)
    → Steps (board_of r) (evidence_of r) (received_of r) g (take_record r g)
unfolding take_record is_type is_always_critical_record
take_record-Steps r g = elim (Bool-cases (r.header.record_type == 1)) [
  | inl e ↦ rw (not_of_board r (ground (arith, e)), e) (as_rx-Steps r g (decode_can_raw r))
  | inr e1 ↦ elim (Bool-cases (r.header.record_type == 6)) [
    | inl e ↦
        rw (not_of_board r (ground (arith, e)), e1, e) (as_ack-Steps r g (decode_control_ack r))
    | inr e2 ↦ elim (Bool-cases (r.header.record_type == 2)) [
      | inl e ↦
          rw (not_of_board r (ground (arith, e)), e1, e2, e) (as_tx-Steps r g (decode_can_raw r))
      | inr e3 ↦ elim (Bool-cases (is_of_board r)) [
        | inl e ↦ rw (e, e1, e2, e3) (push_critical-Steps r g)
        | inr e ↦ rw (e, e1, e2, e3) (still g)
      ]
    ]
  ]
]

pub take_records-Steps :
    (rs : List TypedRecord) (g : Projecting)
    → Steps
        (sum_of board_of rs)
        (sum_of evidence_of rs)
        (sum_of received_of rs)
        g
        (take_records rs g)
unfolding take_records
take_records-Steps [] g = still g
take_records-Steps (r ∷ rs) g =
    Steps-trans (board_of r) (evidence_of r) (received_of r) (sum_of board_of rs)
      (sum_of evidence_of rs) (sum_of received_of rs) g (take_record r g)
      (take_records rs (take_record r g)) (take_record-Steps r g)
      (take_records-Steps rs (take_record r g))
