-- ===== src/Ingress/Projection/Batch.antt =====
-- The counts of src/backend/transport/LiveProjectionRuntime.cpp over its calls: whole batches.
use vsm_field_workstation.Prelude.{
  ℕ, suc, ◌+◌, ◌^◌, ◌<◌, ◌≡◌, ap, Bool-cases, inl, inr, Option, none, some, List, [], ◌∷◌, ◌++◌,
  arith, add_u, length, length-append, length-set, set, find, insert,
}
use vsm_field_workstation.Typed.{TypedRecord, is_type}
use vsm_field_workstation.Typed.RecordType
use vsm_field_workstation.Typed.Records.{TypedCanRawRecord, TypedControlAckRecord}
use vsm_field_workstation.Typed.Decode.{decode_can_raw, decode_control_ack}
use vsm_field_workstation.Packet.Stream.{FrameRecord}
use vsm_field_workstation.Ingress.Projection.{
  Projecting, queue_control_feedback, observe_evidence, count_can_rx, coalesce, observe_can_rx,
  take_can_rx, take_ack, take_can_tx, take_record, take_records, projection_key, to_frame_record,
  is_control_can_id, is_always_critical_record,
}
use vsm_field_workstation.Ingress.Projection.Accounts.{
  Balanced, SameFrames, SameFrames-trans, observe_evidence-SameFrames,
  queue_control_feedback-SameFrames, queue_control_feedback-Balanced, observe_evidence-Balanced,
  push_critical-Balanced, critical-SameFrames, Tally, Tally-same, take_ack-Tally, take_can_tx-Tally,
}

-- A received frame was counted, and has no place yet.
record Ready (k : ℕ) (g : Projecting) : Type 0 where
  tally : Tally k g
  place : length g.coalesced_frames < g.observed_can_rx_in_batch

observe_can_rx-Ready :
    (k : ℕ) (can : TypedCanRawRecord) (g : Projecting)
    → suc k < 2 ^ 64
    → Tally k g
    → Ready (suc k) (observe_can_rx can g)
unfolding observe_can_rx count_can_rx
observe_can_rx-Ready k can g small t =
    let next : add_u 64 g.observed_can_rx_in_batch 1 ≡ g.observed_can_rx_in_batch + 1 =
      omega (arith, t.few) in
    record {
      tally = record {
        balanced = record {
          acks = t.balanced.acks;
          audits = t.balanced.audits;
          feedback = t.balanced.feedback;
          evidence = t.balanced.evidence;
        };
        received = omega (arith, t.received, next);
        room = omega (arith, t.room, next);
        few = omega (arith, t.few, next);
      };
      place = omega (arith, t.room, next);
    }

Ready-same :
    (k : ℕ) (g h : Projecting) → SameFrames g h → Balanced 0 h.runtime → Ready k g → Ready k h
Ready-same k g h s b t = record {
  tally = record {
    balanced = b;
    received = omega (arith, t.tally.received, s.observed, s.projected, s.sampled, s.in_batch);
    room = omega (arith, t.tally.room, s.in_batch, ap (λ xs. length xs) s.frames);
    few = omega (arith, t.tally.few, s.in_batch);
  };
  place = omega (arith, t.place, s.in_batch, ap (λ xs. length xs) s.frames);
}

feedback-Ready :
    (k key : ℕ) (r : TypedRecord) (g : Projecting)
    → Ready k g
    → Ready k (queue_control_feedback key r (observe_evidence g))
feedback-Ready k key r g t =
    let o = observe_evidence g in
    Ready-same k g _
      (SameFrames-trans g o _ (observe_evidence-SameFrames g)
        (queue_control_feedback-SameFrames key r o))
      (queue_control_feedback-Balanced key r o (observe_evidence-Balanced g t.tally.balanced)) t

coalesce-Tally :
    (k key : ℕ) (frame : FrameRecord) (g : Projecting) → Ready k g → Tally k (coalesce key frame g)
unfolding coalesce
coalesce-Tally k key frame g t = placed (find key g.frame_index_by_key)
  where
    placed :
        (o : Option ℕ)
        → Tally k (elim o as (λ _. Projecting) [
          | some i ↦ record g { coalesced_frames = set g.coalesced_frames i frame }
          | none ↦ record g {
            frame_index_by_key = insert key (length g.coalesced_frames) g.frame_index_by_key;
            coalesced_frames = g.coalesced_frames ++ (frame ∷ []);
          }
        ])
    placed none = record {
      balanced = t.tally.balanced;
      received = t.tally.received;
      room = omega (arith, t.place, length-append g.coalesced_frames (frame ∷ []));
      few = t.tally.few;
    }
    placed (some i) = record {
      balanced = t.tally.balanced;
      received = t.tally.received;
      room = omega (arith, t.place, length-set g.coalesced_frames i frame);
      few = t.tally.few;
    }

take_can_rx-Tally :
    (k : ℕ) (r : TypedRecord) (can : TypedCanRawRecord) (g : Projecting)
    → suc k < 2 ^ 64
    → Tally k g
    → Tally (suc k) (take_can_rx r can g)
unfolding take_can_rx
take_can_rx-Tally k r can g small t =
    let key = projection_key can.bus can.can_id in
    let seen = observe_can_rx can g in
    let ready = observe_can_rx-Ready k can g small t in
    elim (Bool-cases (is_control_can_id can.can_id)) [
      | inl e ↦ rw e (
          coalesce-Tally (suc k) key (to_frame_record r can) _
            (feedback-Ready (suc k) key r seen ready))
      | inr e ↦ rw e (coalesce-Tally (suc k) key (to_frame_record r can) seen ready)
    ]

-- A record that changes nothing, and one that is critical.
Tally-suc : (k : ℕ) (g : Projecting) → Tally k g → Tally (suc k) g
Tally-suc k g t = record {
  balanced = t.balanced;
  received = t.received;
  room = t.room;
  few = omega (arith, t.few);
}

as_rx-Tally :
    (k : ℕ) (r : TypedRecord) (g : Projecting) (o : Option TypedCanRawRecord)
    → suc k < 2 ^ 64
    → Tally k g
    → Tally (suc k) (elim o as (λ _. Projecting) [ none ↦ g | some can ↦ take_can_rx r can g ])
as_rx-Tally k r g none small t = Tally-suc k g t
as_rx-Tally k r g (some can) small t = take_can_rx-Tally k r can g small t

as_ack-Tally :
    (k : ℕ) (r : TypedRecord) (g : Projecting) (o : Option TypedControlAckRecord)
    → Tally k g
    → Tally (suc k) (elim o as (λ _. Projecting) [ none ↦ g | some ack ↦ take_ack r ack g ])
as_ack-Tally k r g none t = Tally-suc k g t
as_ack-Tally k r g (some ack) t = take_ack-Tally k r ack g t

as_tx-Tally :
    (k : ℕ) (r : TypedRecord) (g : Projecting) (o : Option TypedCanRawRecord)
    → Tally k g
    → Tally (suc k) (elim o as (λ _. Projecting) [ none ↦ g | some can ↦ take_can_tx r can g ])
as_tx-Tally k r g none t = Tally-suc k g t
as_tx-Tally k r g (some can) t = take_can_tx-Tally k r can g t

take_record-Tally :
    (k : ℕ) (r : TypedRecord) (g : Projecting)
    → suc k < 2 ^ 64
    → Tally k g
    → Tally (suc k) (take_record r g)
unfolding take_record
take_record-Tally k r g small t = elim (Bool-cases (is_type r RecordType.can_rx_raw)) [
  | inl e ↦ rw e (as_rx-Tally k r g (decode_can_raw r) small t)
  | inr e1 ↦ elim (Bool-cases (is_type r RecordType.control_ack)) [
    | inl e ↦ rw (e1, e) (as_ack-Tally k r g (decode_control_ack r) t)
    | inr e2 ↦ elim (Bool-cases (is_type r RecordType.can_tx_raw)) [
      | inl e ↦ rw (e1, e2, e) (as_tx-Tally k r g (decode_can_raw r) t)
      | inr e3 ↦ elim (Bool-cases (is_always_critical_record r)) [
        | inl e ↦
            rw (e1, e2, e3, e)
              (Tally-same k g _ (critical-SameFrames r g) (push_critical-Balanced r 0 g t.balanced)
                t)
        | inr e ↦ rw (e1, e2, e3, e) (Tally-suc k g t)
      ]
    ]
  ]
]

pub take_records-Tally :
    (k : ℕ) (rs : List TypedRecord) (g : Projecting)
    → k + length rs < 2 ^ 64
    → Tally k g
    → Tally (k + length rs) (take_records rs g)
unfolding take_records
take_records-Tally k [] g small t = let e : k + 0 ≡ k = omega arith in rw e t
take_records-Tally k (r ∷ rs) g small t =
    let e : k + suc (length rs) ≡ suc k + length rs = omega arith in
    rw e (
      take_records-Tally (suc k) rs (take_record r g) (omega arith)
        (take_record-Tally k r g (omega arith) t))
