-- ===== src/Ingress/Projection.antt =====
-- The projection of the records onto what the operator's views are given:
-- src/backend/transport/LiveProjectionRuntime.h and LiveProjectionRuntime.cpp. A QHash is a list with one
-- pair for a key. The two calls of std::sort are parameters: `sort_frames` sorts by tExtUs,
-- `sort_records` by the time and the sequence number. A timer is the time at which it was last restarted,
-- or nothing; one call reads one time. Sizes of lists stay below 2 ^ 31.
pub mod Accounts
pub mod Batch
pub mod Conservation
pub mod Critical
pub mod Counted
pub mod Handed
use vsm_field_workstation.Prelude.{
  ℕ, zero, suc, ◌+◌, ◌-◌, ◌*◌, ◌%◌, ◌^◌, bit_and, bit_or, max, Bool, true, false, not, ◌&&◌, ◌||◌,
  Option, none, some, List, [], ◌∷◌, ◌++◌, map, ltb, leb, ◌==◌, if◌then◌else◌, add_u, length, drop,
  set, find, insert,
}
use vsm_field_workstation.Typed.{TypedRecord, is_type}
use vsm_field_workstation.Typed.RecordType
use vsm_field_workstation.Typed.Records.{TypedCanRawRecord, TypedControlAckRecord}
use vsm_field_workstation.Typed.Decode.{decode_can_raw, decode_control_ack}
use vsm_field_workstation.Packet.Stream.{FrameRecord}
use vsm_field_workstation.HostTx.{is_empty}
use vsm_field_workstation.Ingress.Typed.{has_elapsed}

abbrev pub projection_status_interval_ms : ℕ
projection_status_interval_ms = 250

abbrev pub control_evidence_projection_interval_ms : ℕ
control_evidence_projection_interval_ms = 250

abbrev pub control_evidence_hard_pending_records : ℕ
control_evidence_hard_pending_records = 64

abbrev pub control_can_ids : List ℕ
control_can_ids = 0x503 ∷ 0x510 ∷ 0x511 ∷ 0x512 ∷ 0x513 ∷ []

pub record Status : Type 0 where
  pub observed_can_rx_frames : ℕ
  pub projected_can_rx_frames : ℕ
  pub sampled_can_rx_frames : ℕ
  pub worker_dropped_can_rx_frames : ℕ
  pub observed_bus0_can_rx_frames : ℕ
  pub observed_bus1_can_rx_frames : ℕ
  pub observed_control_evidence_records : ℕ
  pub projected_control_evidence_records : ℕ
  pub sampled_control_evidence_records : ℕ
  pub last_input_records : ℕ
  pub last_output_frames : ℕ
  pub last_output_critical_records : ℕ

abbrev pub zero_status : Status
zero_status = record {
  observed_can_rx_frames = 0;
  projected_can_rx_frames = 0;
  sampled_can_rx_frames = 0;
  worker_dropped_can_rx_frames = 0;
  observed_bus0_can_rx_frames = 0;
  observed_bus1_can_rx_frames = 0;
  observed_control_evidence_records = 0;
  projected_control_evidence_records = 0;
  sampled_control_evidence_records = 0;
  last_input_records = 0;
  last_output_frames = 0;
  last_output_critical_records = 0;
}

abbrev pub Bucket : Type 0
Bucket = List (ℕ × TypedRecord)

pub record LiveProjectionRuntime : Type 0 where
  pub max_frames_per_batch : ℕ
  pub status : Status
  pub status_timer : Option ℕ
  pub control_evidence_timer : Option ℕ
  pub pending_accepted_control_ack_by_key : Bucket
  pub pending_control_tx_by_key : Bucket
  pub pending_control_feedback_rx_by_key : Bucket

abbrev pub new_projection : ℕ → LiveProjectionRuntime
new_projection max_frames_per_batch = record {
  max_frames_per_batch = max 1 max_frames_per_batch;
  status = zero_status;
  status_timer = none;
  control_evidence_timer = none;
  pending_accepted_control_ack_by_key = [];
  pending_control_tx_by_key = [];
  pending_control_feedback_rx_by_key = [];
}

unfoldable pub reset : LiveProjectionRuntime → LiveProjectionRuntime
reset p = record p {
  status = zero_status;
  status_timer = none;
  control_evidence_timer = none;
  pending_accepted_control_ack_by_key = [];
  pending_control_tx_by_key = [];
  pending_control_feedback_rx_by_key = [];
}

unfoldable pub is_always_critical_record : TypedRecord → Bool
unfolding is_type
is_always_critical_record r =
    is_type r RecordType.board_event
    || (is_type r RecordType.board_health || is_type r RecordType.capability)

unfoldable pub is_among : ℕ → List ℕ → Bool
is_among can_id [] = false
is_among can_id (id ∷ ids) = (can_id == id) || is_among can_id ids

unfoldable pub is_control_can_id : ℕ → Bool
unfolding is_among
is_control_can_id can_id = is_among can_id control_can_ids

unfoldable pub to_frame_record : TypedRecord → TypedCanRawRecord → FrameRecord
to_frame_record r can = record {
  t_ext_us = can.mono_us;
  can_id = can.can_id;
  ext = can.extended;
  rtr = can.rtr;
  dlc = can.dlc;
  bytes = can.bytes;
  bus = can.bus;
  seq = bit_and r.header.seq 0xFF;
  has_observed_gap = false;
  observed_gap_us = 0;
  raw20 = [];
}

-- projectionKey and controlEvidenceKey.
unfoldable pub projection_key : ℕ → ℕ → ℕ
projection_key bus can_id = bit_or (bus * 2 ^ 32) can_id

abbrev pub is_some {ℓ} : {A : Type ℓ} → Option A → Bool
is_some none = false
is_some (some a) = true

-- contains of QHash.
unfoldable pub contains_key : ℕ → Bucket → Bool
contains_key key bucket = is_some (find key bucket)

-- The status after queueSampledControlEvidence; the bucket is `insert key record bucket`.
unfoldable pub note_sampled : ℕ → Bucket → Status → Status
unfolding contains_key
note_sampled key bucket s =
    if contains_key key bucket
    then record s {
      sampled_control_evidence_records = add_u 64 s.sampled_control_evidence_records 1;
    }
    else s

-- The locals of ingest: the object, the critical records, the index of the frames, the frames, the
-- counter of the batch and the flag of the batch.
pub record Projecting : Type 0 where
  pub runtime : LiveProjectionRuntime
  pub critical : List TypedRecord
  pub frame_index_by_key : List (ℕ × ℕ)
  pub coalesced_frames : List FrameRecord
  pub observed_can_rx_in_batch : ℕ
  pub sampled_control_evidence_in_batch : Bool

unfoldable pub note_observed_evidence : Status → Status
note_observed_evidence s = record s {
  observed_control_evidence_records = add_u 64 s.observed_control_evidence_records 1;
}

unfoldable pub queue_accepted_ack : ℕ → TypedRecord → Projecting → Projecting
unfolding note_sampled contains_key
queue_accepted_ack key r g =
    let bucket = g.runtime.pending_accepted_control_ack_by_key in
    record g {
      runtime = record (g.runtime) {
        status = note_sampled key bucket g.runtime.status;
        pending_accepted_control_ack_by_key = insert key r bucket;
      };
      sampled_control_evidence_in_batch =
          g.sampled_control_evidence_in_batch || contains_key key bucket;
    }

unfoldable pub queue_control_tx : ℕ → TypedRecord → Projecting → Projecting
unfolding note_sampled contains_key
queue_control_tx key r g =
    let bucket = g.runtime.pending_control_tx_by_key in
    record g {
      runtime = record (g.runtime) {
        status = note_sampled key bucket g.runtime.status;
        pending_control_tx_by_key = insert key r bucket;
      };
      sampled_control_evidence_in_batch =
          g.sampled_control_evidence_in_batch || contains_key key bucket;
    }

unfoldable pub queue_control_feedback : ℕ → TypedRecord → Projecting → Projecting
unfolding note_sampled contains_key
queue_control_feedback key r g =
    let bucket = g.runtime.pending_control_feedback_rx_by_key in
    record g {
      runtime = record (g.runtime) {
        status = note_sampled key bucket g.runtime.status;
        pending_control_feedback_rx_by_key = insert key r bucket;
      };
      sampled_control_evidence_in_batch =
          g.sampled_control_evidence_in_batch || contains_key key bucket;
    }

unfoldable pub observe_evidence : Projecting → Projecting
unfolding note_observed_evidence
observe_evidence g = record g {
  runtime = record (g.runtime) { status = note_observed_evidence g.runtime.status };
}

unfoldable pub count_can_rx : ℕ → Status → Status
count_can_rx bus s = record s {
  observed_can_rx_frames = add_u 64 s.observed_can_rx_frames 1;
  observed_bus0_can_rx_frames =
      if bus == 0 then add_u 64 s.observed_bus0_can_rx_frames 1 else s.observed_bus0_can_rx_frames;
  observed_bus1_can_rx_frames =
      if bus == 1 then add_u 64 s.observed_bus1_can_rx_frames 1 else s.observed_bus1_can_rx_frames;
}

-- The frame replaces that of its key, or is the last.
unfoldable pub coalesce : ℕ → FrameRecord → Projecting → Projecting
coalesce key frame g = elim (find key g.frame_index_by_key) [
  | some i ↦ record g { coalesced_frames = set g.coalesced_frames i frame }
  | none ↦ record g {
    frame_index_by_key = insert key (length g.coalesced_frames) g.frame_index_by_key;
    coalesced_frames = g.coalesced_frames ++ (frame ∷ []);
  }
]

unfoldable pub observe_can_rx : TypedCanRawRecord → Projecting → Projecting
unfolding count_can_rx
observe_can_rx can g = record g {
  runtime = record (g.runtime) { status = count_can_rx can.bus g.runtime.status };
  observed_can_rx_in_batch = add_u 64 g.observed_can_rx_in_batch 1;
}

unfoldable pub take_can_rx : TypedRecord → TypedCanRawRecord → Projecting → Projecting
unfolding observe_can_rx observe_evidence queue_control_feedback coalesce is_control_can_id
    to_frame_record projection_key
take_can_rx r can g =
    let seen = observe_can_rx can g in
    let queued =
      queue_control_feedback (projection_key can.bus can.can_id) r (observe_evidence seen) in
    coalesce (projection_key can.bus can.can_id) (to_frame_record r can)
      (if is_control_can_id can.can_id then queued else seen)

unfoldable pub push_critical : TypedRecord → Projecting → Projecting
push_critical r g = record g { critical = g.critical ++ (r ∷ []) }

unfoldable pub note_projected_evidence : ℕ → Projecting → Projecting
note_projected_evidence n g = record g {
  runtime = record (g.runtime) {
    status = record (g.runtime.status) {
      projected_control_evidence_records =
          add_u 64 g.runtime.status.projected_control_evidence_records n;
    };
  };
}

unfoldable pub take_ack : TypedRecord → TypedControlAckRecord → Projecting → Projecting
unfolding observe_evidence push_critical note_projected_evidence queue_accepted_ack projection_key
take_ack r ack g =
    if ack.status == 0
    then note_projected_evidence 1 (push_critical r (observe_evidence g))
    else queue_accepted_ack (projection_key ack.target_bus ack.target_can_id) r (observe_evidence g)

unfoldable pub take_can_tx : TypedRecord → TypedCanRawRecord → Projecting → Projecting
unfolding observe_evidence queue_control_tx projection_key
take_can_tx r can g = queue_control_tx (projection_key can.bus can.can_id) r (observe_evidence g)

-- The body of the loop over the records.
unfoldable pub take_record : TypedRecord → Projecting → Projecting
unfolding take_can_rx take_ack take_can_tx push_critical is_always_critical_record
take_record r g =
    let as_rx : Projecting = elim (decode_can_raw r) [
      | none ↦ g
      | some can ↦ take_can_rx r can g
    ] in
    let as_ack : Projecting = elim (decode_control_ack r) [
      | none ↦ g
      | some ack ↦ take_ack r ack g
    ] in
    let as_tx : Projecting = elim (decode_can_raw r) [
      | none ↦ g
      | some can ↦ take_can_tx r can g
    ] in
    if is_type r RecordType.can_rx_raw
    then as_rx
    else if is_type r RecordType.control_ack
    then as_ack
    else if is_type r RecordType.can_tx_raw
    then as_tx
    else if is_always_critical_record r
    then push_critical r g
    else g

unfoldable pub take_records : List TypedRecord → Projecting → Projecting
unfolding take_record
take_records [] g = g
take_records (r ∷ rs) g = take_records rs (take_record r g)

unfoldable pub pending_count : LiveProjectionRuntime → ℕ
pending_count p =
    length p.pending_accepted_control_ack_by_key
    + length p.pending_control_tx_by_key
    + length p.pending_control_feedback_rx_by_key

unfoldable pub control_evidence_flush_due : ℕ → LiveProjectionRuntime → Bool
unfolding pending_count has_elapsed
control_evidence_flush_due now_ms p =
    if pending_count p == 0
    then false
    else if leb control_evidence_hard_pending_records (pending_count p)
    then true
    else has_elapsed p.control_evidence_timer now_ms control_evidence_projection_interval_ms

unfoldable pub status_due : ℕ → Bool → LiveProjectionRuntime → Bool × LiveProjectionRuntime
unfolding has_elapsed
status_due now_ms sampled_this_batch p =
    if sampled_this_batch
    then (true, p)
    else if has_elapsed p.status_timer now_ms projection_status_interval_ms
    then (true, record p { status_timer = some now_ms })
    else (false, p)

pub record IngestResult : Type 0 where
  pub critical_records : List TypedRecord
  pub projected_frames : List FrameRecord
  pub status : Status
  pub status_due : Bool

unfoldable pub count_output : ℕ → List FrameRecord → Projecting → Status
count_output input frames g =
    let s = g.runtime.status in
    record s {
      projected_can_rx_frames = add_u 64 s.projected_can_rx_frames (length frames);
      sampled_can_rx_frames =
          if ltb (length frames) g.observed_can_rx_in_batch
          then add_u 64 s.sampled_can_rx_frames (g.observed_can_rx_in_batch - length frames)
          else s.sampled_can_rx_frames;
      last_input_records = input;
      last_output_frames = length frames;
      last_output_critical_records = length g.critical;
    }

abbrev pub begun : LiveProjectionRuntime → Projecting
begun p = record {
  runtime = p;
  critical = [];
  frame_index_by_key = [];
  coalesced_frames = [];
  observed_can_rx_in_batch = 0;
  sampled_control_evidence_in_batch = false;
}

module _ (sort_frames : List FrameRecord → List FrameRecord)
    (sort_records : List TypedRecord → List TypedRecord) where
  unfoldable pub take_sorted_records : Bucket → List TypedRecord
  take_sorted_records bucket = sort_records (map (λ pair. pair.1) bucket)

  unfoldable pub flush_pending_control_evidence : ℕ → Projecting → Projecting
  unfolding take_sorted_records note_projected_evidence
  flush_pending_control_evidence now_ms g =
      let accepted_acks = take_sorted_records g.runtime.pending_accepted_control_ack_by_key in
      let tx_audits = take_sorted_records g.runtime.pending_control_tx_by_key in
      let feedback_frames = take_sorted_records g.runtime.pending_control_feedback_rx_by_key in
      note_projected_evidence (length accepted_acks + length tx_audits + length feedback_frames)
        (record g {
          runtime = record (g.runtime) {
            control_evidence_timer = some now_ms;
            pending_accepted_control_ack_by_key = [];
            pending_control_tx_by_key = [];
            pending_control_feedback_rx_by_key = [];
          };
          critical = g.critical ++ (accepted_acks ++ (tx_audits ++ feedback_frames));
        })

  -- The frames that are projected, and those that are cut off.
  unfoldable pub cut_frames : Projecting → Projecting
  cut_frames g =
      let max_frames = g.runtime.max_frames_per_batch in
      let remove_count = length g.coalesced_frames - max_frames in
      if ltb max_frames (length g.coalesced_frames)
      then record g {
        coalesced_frames = drop remove_count (sort_frames g.coalesced_frames);
        runtime = record (g.runtime) {
          status = record (g.runtime.status) {
            worker_dropped_can_rx_frames =
                add_u 64 g.runtime.status.worker_dropped_can_rx_frames remove_count;
          };
        };
      }
      else g

  unfoldable pub flush_if_due : ℕ → Projecting → Projecting
  unfolding flush_pending_control_evidence
  flush_if_due now_ms g =
      if control_evidence_flush_due now_ms g.runtime
      then flush_pending_control_evidence now_ms g
      else g

  unfoldable pub ingest :
      ℕ → List TypedRecord → LiveProjectionRuntime → IngestResult × LiveProjectionRuntime
  unfolding take_records cut_frames flush_if_due count_output status_due
  ingest now_ms records p =
      let taken = cut_frames (take_records records (begun p)) in
      let frames = sort_frames taken.coalesced_frames in
      let g = flush_if_due now_ms taken in
      let status = count_output (length records) frames g in
      let (due, after) =
        status_due now_ms
          (ltb (length frames) g.observed_can_rx_in_batch || g.sampled_control_evidence_in_batch)
          (record (g.runtime) { status = status }) in
      if is_empty records
      then (
        record {
          critical_records = [];
          projected_frames = [];
          status = p.status;
          status_due = false;
        },
        p,
      )
      else (
        record {
          critical_records = g.critical;
          projected_frames = frames;
          status = status;
          status_due = due;
        },
        after,
      )
