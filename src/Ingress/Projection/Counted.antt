-- ===== src/Ingress/Projection/Counted.antt =====
-- The counts of src/backend/transport/LiveProjectionRuntime.cpp against the records that go in and those
-- that come out.
pub mod Records
use vsm_field_workstation.Prelude.{
  ℕ, ◌+◌, ◌%◌, ◌^◌, ◌≡◌, refl, Bool, true, false, ◌||◌, Bool-cases, inl, inr, Option, none, some,
  List, [], ◌∷◌, ◌++◌, if◌then◌else◌, arith, ◌==◌, length, length-append, set, find, insert,
}
use vsm_field_workstation.Typed.{TypedRecord, is_type}
use vsm_field_workstation.Typed.Records.{TypedCanRawRecord, TypedControlAckRecord}
use vsm_field_workstation.Typed.Decode.{decode_can_raw, decode_control_ack}
use vsm_field_workstation.Packet.Stream.{FrameRecord}
use vsm_field_workstation.Ingress.Projection.{
  Status, Projecting, note_sampled, note_observed_evidence, queue_accepted_ack, queue_control_tx,
  queue_control_feedback, observe_evidence, count_can_rx, coalesce, observe_can_rx, take_can_rx,
  push_critical, note_projected_evidence, take_ack, take_can_tx, take_record, take_records,
  projection_key, to_frame_record, is_control_can_id, is_among, is_always_critical_record,
}
use vsm_field_workstation.Ingress.Projection.Critical.{is_of_board}

-- What a record counts as, by the number of its type: a record of the board (7, 8 or 9), a received frame
-- (1), and control evidence, which is a received frame of a control id, an acknowledgement (6) or a
-- transmitted frame (2). What does not decode does not count.
abbrev pub decoded {ℓ} : {A : Type ℓ} → Option A → ℕ
decoded none = 0
decoded (some a) = 1

abbrev pub is_control_id : ℕ → Bool
is_control_id id =
    (id == 0x503) || ((id == 0x510) || ((id == 0x511) || ((id == 0x512) || (id == 0x513))))

abbrev pub feedback_of : Option TypedCanRawRecord → ℕ
feedback_of none = 0
feedback_of (some can) = if is_control_id can.can_id then 1 else 0

abbrev pub board_of : TypedRecord → ℕ
board_of r = if is_of_board r then 1 else 0

abbrev pub received_of : TypedRecord → ℕ
received_of r = if r.header.record_type == 1 then decoded (decode_can_raw r) else 0

abbrev pub evidence_of : TypedRecord → ℕ
evidence_of r =
    if r.header.record_type == 1
    then feedback_of (decode_can_raw r)
    else if r.header.record_type == 6
    then decoded (decode_control_ack r)
    else if r.header.record_type == 2
    then decoded (decode_can_raw r)
    else 0

abbrev pub sum_of : (TypedRecord → ℕ) → List TypedRecord → ℕ
sum_of count [] = 0
sum_of count (r ∷ rs) = count r + sum_of count rs

-- From one status and a number of critical records to another, modulo 2^64: the control evidence that was
-- counted as projected was handed over, beside the records of the board.
pub record Moves (board evidence received frames : ℕ) (s : Status) (c : ℕ) (t : Status) (d : ℕ)
    : Type 0 where
  pub hands :
      (t.projected_control_evidence_records + board + c) % 2 ^ 64
      ≡ (s.projected_control_evidence_records + d) % 2 ^ 64
  pub observed :
      t.observed_control_evidence_records % 2 ^ 64
      ≡ (s.observed_control_evidence_records + evidence) % 2 ^ 64
  pub arrived : t.observed_can_rx_frames % 2 ^ 64 ≡ (s.observed_can_rx_frames + received) % 2 ^ 64
  pub projected : t.projected_can_rx_frames % 2 ^ 64 ≡ (s.projected_can_rx_frames + frames) % 2 ^ 64

abbrev pub Steps : ℕ → ℕ → ℕ → Projecting → Projecting → Type 0
Steps board evidence received g h =
    Moves board evidence received 0 g.runtime.status (length g.critical) h.runtime.status
      (length h.critical)

pub Steps-trans :
    (b1 e1 r1 b2 e2 r2 : ℕ) (g m h : Projecting)
    → Steps b1 e1 r1 g m
    → Steps b2 e2 r2 m h
    → Steps (b1 + b2) (e1 + e2) (r1 + r2) g h
Steps-trans b1 e1 r1 b2 e2 r2 g m h x y = record {
  hands = omega (arith, x.hands, y.hands);
  observed = omega (arith, x.observed, y.observed);
  arrived = omega (arith, x.arrived, y.arrived);
  projected = omega (arith, x.projected, y.projected);
}

-- The same critical records, and the same four counters.
abbrev pub SameCounts : Projecting → Projecting → Type 0
SameCounts g h =
    (length h.critical ≡ length g.critical)
    × (h.runtime.status.projected_control_evidence_records
        ≡ g.runtime.status.projected_control_evidence_records)
    × (h.runtime.status.observed_control_evidence_records
        ≡ g.runtime.status.observed_control_evidence_records)
    × (h.runtime.status.observed_can_rx_frames ≡ g.runtime.status.observed_can_rx_frames)
    × (h.runtime.status.projected_can_rx_frames ≡ g.runtime.status.projected_can_rx_frames)

pub Steps-same :
    (b e r : ℕ) (g m h : Projecting) → Steps b e r g m → SameCounts m h → Steps b e r g h
Steps-same b e r g m h x (c, p, o, a, f) = record {
  hands = omega (arith, x.hands, c, p);
  observed = omega (arith, x.observed, o);
  arrived = omega (arith, x.arrived, a);
  projected = omega (arith, x.projected, f);
}
