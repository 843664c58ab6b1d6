-- ===== src/Evidence/Board.antt =====
-- Whether the board is alive and may be controlled: src/backend/evidence/BoardConnectionState.h and
-- BoardConnectionState.cpp, and the calls that EvidenceRuntime.h and EvidenceRuntime.cpp pass on.
-- The three limits are the constructor's default arguments, the only ones the program uses.
pub mod Gate
pub mod Reason
pub mod History
use Prim.Native.String.{String}
use vsm_field_workstation.Prelude.{
  ℕ, ◌-◌, Bool, true, false, not, ◌&&◌, List, [], ◌∷◌, ltb, leb, ◌==◌, if◌then◌else◌,
}
use vsm_field_workstation.Prelude.Int.{pos}
use vsm_field_workstation.Typed.Records.{TypedCapabilityRecord, TypedBoardHealthRecord}

abbrev pub required_protocol_version : ℕ
required_protocol_version = 1

abbrev pub health_fresh_window_us : ℕ
health_fresh_window_us = 2000000

abbrev pub health_fresh_window_ms : ℕ
health_fresh_window_ms = 2500

-- The value-initialised records, `TypedCapabilityRecord{}` and `TypedBoardHealthRecord{}`.
abbrev pub no_capability : TypedCapabilityRecord
no_capability = record {
  mono_us = 0;
  protocol_version = 0;
  profile_major = 0;
  profile_minor = 0;
  mono_unit = 0;
  can_queue_size = 0;
  encoder_ppr = 0;
  encoder_frequency_limit = 0;
  supports_can_rx_raw = false;
  supports_can_tx_raw = false;
  supports_enc_edge_raw = false;
  supports_enc_derived = false;
  supports_adc_sample = false;
  supports_board_health = false;
  supports_board_event = false;
  adc_channels = 0;
  adc_resolution_bits = 0;
  adc_period_ms = 0;
  lane_capability_flags = 0;
  limitation_flags = 0;
  bus_count = 0;
  bus_descriptor_size = 0;
  capability_v2_flags = 0;
  buses = [];
  supported_uplink_records = 0;
  supported_downlink_records = 0;
  safety_feature_flags = 0;
  policy_hash = 0;
  firmware_build_id = 0;
  host_tx_queue_size = 0;
  capability_v3_flags = 0;
}

abbrev pub no_health : TypedBoardHealthRecord
no_health = record {
  mono_us = 0;
  can_rx_total = 0;
  can_dropped_total = 0;
  can_fifo_overflow_total = 0;
  serial_record_tx_total = 0;
  queue_depth = 0;
  encoder_fault_events = 0;
  encoder_wrap_events = 0;
  encoder_position = pos 0;
  safety_state = 0;
  inputs = 0;
  encoder_timer_ok = 0;
  flags = 0;
  fault_flags = 0;
}

pub record BoardConnectionState : Type 0 where
  pub now_mono_us : ℕ
  pub now_wall_ms : ℕ
  pub last_capability_wall_ms : ℕ
  pub last_health_wall_ms : ℕ
  pub serial_open : Bool
  pub capability_seen : Bool
  pub health_seen : Bool
  pub capability : TypedCapabilityRecord
  pub health : TypedBoardHealthRecord

-- The state the constructor leaves, which `reset` restores.
abbrev pub initial : BoardConnectionState
initial = record {
  now_mono_us = 0;
  now_wall_ms = 0;
  last_capability_wall_ms = 0;
  last_health_wall_ms = 0;
  serial_open = false;
  capability_seen = false;
  health_seen = false;
  capability = no_capability;
  health = no_health;
}

unfoldable pub reset : BoardConnectionState → BoardConnectionState
reset s = initial

unfoldable pub set_serial_open : Bool → BoardConnectionState → BoardConnectionState
unfolding reset
set_serial_open false s = reset s
set_serial_open true s = record s { serial_open = true }

-- `if (value > now) now = value`.
abbrev pub raise : ℕ → ℕ → ℕ
raise value now = if ltb now value then value else now

-- The wall time a record is stamped with; a time of 0 is an absent one.
abbrev pub stamp : ℕ → ℕ → ℕ → ℕ
stamp wall_ms now last = if ltb 0 wall_ms then wall_ms else if ltb 0 now then now else last

unfoldable pub ingest_capability :
    TypedCapabilityRecord → ℕ → BoardConnectionState → BoardConnectionState
ingest_capability capability wall_ms s = record s {
  capability = capability;
  capability_seen = true;
  now_mono_us = raise capability.mono_us s.now_mono_us;
  now_wall_ms = if ltb 0 wall_ms then raise wall_ms s.now_wall_ms else s.now_wall_ms;
  last_capability_wall_ms = stamp wall_ms s.now_wall_ms s.last_capability_wall_ms;
}

unfoldable pub ingest_board_health :
    TypedBoardHealthRecord → ℕ → BoardConnectionState → BoardConnectionState
ingest_board_health health wall_ms s = record s {
  health = health;
  health_seen = true;
  now_mono_us = raise health.mono_us s.now_mono_us;
  now_wall_ms = if ltb 0 wall_ms then raise wall_ms s.now_wall_ms else s.now_wall_ms;
  last_health_wall_ms = stamp wall_ms s.now_wall_ms s.last_health_wall_ms;
}

unfoldable pub advance_monotonic_time : ℕ → BoardConnectionState → BoardConnectionState
advance_monotonic_time mono_us s = record s { now_mono_us = raise mono_us s.now_mono_us }

unfoldable pub advance_wall_time_ms : ℕ → BoardConnectionState → BoardConnectionState
advance_wall_time_ms wall_ms s = record s { now_wall_ms = raise wall_ms s.now_wall_ms }

unfoldable pub mono_fresh : BoardConnectionState → Bool
mono_fresh s =
    if ltb s.health.mono_us s.now_mono_us
    then leb (s.now_mono_us - s.health.mono_us) health_fresh_window_us
    else true

unfoldable pub health_is_fresh : BoardConnectionState → Bool
unfolding mono_fresh
health_is_fresh s =
    if not s.health_seen
    then false
    else if not (mono_fresh s)
    then false
    else if ltb 0 s.last_health_wall_ms && ltb s.last_health_wall_ms s.now_wall_ms
    then leb (s.now_wall_ms - s.last_health_wall_ms) health_fresh_window_ms
    else true

unfoldable pub safety_allows_control_standby : BoardConnectionState → Bool
safety_allows_control_standby s = leb 1 s.health.safety_state && leb s.health.safety_state 4

pub record Snapshot : Type 0 where
  pub serial_open : Bool
  pub capability_seen : Bool
  pub health_seen : Bool
  pub protocol_compatible : Bool
  pub health_fresh : Bool
  pub board_alive : Bool
  pub control_capable : Bool
  pub profile_major : ℕ
  pub profile_minor : ℕ
  pub safety_state : ℕ
  pub fault_flags : ℕ
  pub last_capability_mono_us : ℕ
  pub last_health_mono_us : ℕ
  pub last_health_wall_ms : ℕ
  pub health_age_ms : ℕ
  pub reason : String

unfoldable pub protocol_compatible : BoardConnectionState → Bool
protocol_compatible s =
    s.capability_seen && (s.capability.protocol_version == required_protocol_version)

unfoldable pub board_alive : BoardConnectionState → Bool
unfolding protocol_compatible
board_alive s =
    s.serial_open
    && (s.capability_seen
        && (s.health_seen
            && (protocol_compatible s
                && (health_is_fresh s && s.capability.supports_board_health))))

unfoldable pub control_capable : BoardConnectionState → Bool
control_capable s =
    board_alive s
    && (s.capability.supports_can_tx_raw
        && (safety_allows_control_standby s && (s.health.fault_flags == 0)))

unfoldable pub reason : BoardConnectionState → String
reason s =
    if not s.serial_open
    then "serial closed"
    else if not s.capability_seen
    then "waiting for CAPABILITY"
    else if not (protocol_compatible s)
    then "protocol mismatch"
    else if not s.capability.supports_board_health
    then "BOARD_HEALTH not advertised"
    else if not s.health_seen
    then "waiting for BOARD_HEALTH"
    else if not (health_is_fresh s)
    then "BOARD_HEALTH stale"
    else if not s.capability.supports_can_tx_raw
    then "CAN_TX_RAW audit not advertised"
    else if not (safety_allows_control_standby s)
    then "board safety state blocks control"
    else if not (s.health.fault_flags == 0)
    then "board fault flags active"
    else "board alive"

unfoldable pub compute_snapshot : BoardConnectionState → Snapshot
compute_snapshot s = record {
  serial_open = s.serial_open;
  capability_seen = s.capability_seen;
  health_seen = s.health_seen;
  protocol_compatible = protocol_compatible s;
  health_fresh = health_is_fresh s;
  board_alive = board_alive s;
  control_capable = control_capable s;
  profile_major = if s.capability_seen then s.capability.profile_major else 0;
  profile_minor = if s.capability_seen then s.capability.profile_minor else 0;
  safety_state = if s.health_seen then s.health.safety_state else 0;
  fault_flags = if s.health_seen then s.health.fault_flags else 0;
  last_capability_mono_us = if s.capability_seen then s.capability.mono_us else 0;
  last_health_mono_us = if s.health_seen then s.health.mono_us else 0;
  last_health_wall_ms = if s.health_seen then s.last_health_wall_ms else 0;
  health_age_ms =
      if s.health_seen && (ltb 0 s.last_health_wall_ms && leb s.last_health_wall_ms s.now_wall_ms)
      then s.now_wall_ms - s.last_health_wall_ms
      else 0;
  reason = reason s;
}

-- The calls of EvidenceRuntime, from the newest to the oldest. BoardConnectionState's own
-- advanceMonotonicTime has no caller there, and is a call like the others.
pub data Call : Type 0 where
  resets : Bool → Call
  sets_serial_open : Bool → Call
  ingests_capability : TypedCapabilityRecord → ℕ → Call
  ingests_board_health : TypedBoardHealthRecord → ℕ → Call
  advances_monotonic_time : ℕ → Call
  advances_wall_time_ms : ℕ → Call

-- EvidenceRuntime::reset calls reset, then setSerialOpen.
unfoldable pub step : Call → BoardConnectionState → BoardConnectionState
unfolding reset set_serial_open ingest_capability ingest_board_health advance_monotonic_time
    advance_wall_time_ms
step (Call.resets is_open) s = set_serial_open is_open (reset s)
step (Call.sets_serial_open is_open) s = set_serial_open is_open s
step (Call.ingests_capability capability wall_ms) s = ingest_capability capability wall_ms s
step (Call.ingests_board_health health wall_ms) s = ingest_board_health health wall_ms s
step (Call.advances_monotonic_time mono_us) s = advance_monotonic_time mono_us s
step (Call.advances_wall_time_ms wall_ms) s = advance_wall_time_ms wall_ms s

unfoldable pub after : List Call → BoardConnectionState
unfolding step
after [] = initial
after (call ∷ earlier) = step call (after earlier)
