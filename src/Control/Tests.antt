-- ===== src/Control/Tests.antt =====
-- Examples of the control path on concrete commands.
use vsm_field_workstation.Prelude.{
  ℕ, suc, ◌+◌, ◌-◌, ◌^◌, ◌<◌, ◌≡◌, refl, ◌⊎◌, inr, true, false, some, List, [], ◌∷◌, ◌++◌, map,
  arith, length,
}
use vsm_field_workstation.Prelude.Int.{pos, negsuc}
use vsm_field_workstation.Foreign.Samples.{plain_text, fixed}
use vsm_field_workstation.Wire.{
  crc_bit, crc_bits, crc_loop, crc16_ccitt, write_u16_le, write_u32_le,
}
use vsm_field_workstation.Typed.Parser.{Parser, view, zero_counters}
use vsm_field_workstation.Control.Encoder.{
  ControlCanFrame, host_frame, eight_bytes, can_tx_payload, build_host_can_tx_request,
  session_payload, build_host_control_session, make_vcu_auto_frame,
}
use vsm_field_workstation.Control.Encoder.Frames.{
  IsCanFrame, Arrives, Requests, SaysSession, host_can_tx_request-Arrives,
  host_control_session-Arrives,
}
use vsm_field_workstation.Control.Encoder.Motion.{SaysMotion, make_vcu_auto_frame-SaysMotion}
use vsm_field_workstation.Control.Slew.{ControlSlewLimiter}
use vsm_field_workstation.Control.Slew.Command.{command_step, StepsSafely, command_step-StepsSafely}
use vsm_field_workstation.Control.Slew.Limiter.{IsInRange, run, run_reaches_target}
use vsm_field_workstation.Control.Cycle.{
  HostFrameIntent, Keeper, Pending, next_command_id, request_loop, maintain_session,
  drain_pending_frames,
}
use vsm_field_workstation.Control.Cycle.Operations.{Command, ControlCycleRuntime, initial}
use vsm_field_workstation.Control.Cycle.Draining.{
  left, IsPaced, pauses, Advances, drain_pending_frames-Advances,
}
use vsm_field_workstation.Control.Cycle.Ids.{
  next_command_id-range, numbered, frame_of, request_loop-numbered,
}
use vsm_field_workstation.Control.Cycle.Session.{KeepsAlive, maintain_session-KeepsAlive}
use vsm_field_workstation.Control.Cycle.Calls.{
  Call, after, after-IsPaced, continue_times, continue_times-sends_all,
}

abbrev listening : List ℕ → Parser
listening bytes = record {
  window = record { buffer = bytes; buffer_offset = 0 };
  counters = zero_counters;
  have_last_seq = false;
  last_seq = 0;
}

abbrev manual : ControlCanFrame
manual = record {
  bus = 1;
  can_id = 0x503;
  extended = false;
  rtr = false;
  dlc = 8;
  bytes = 128 ∷ 0 ∷ 0 ∷ 0 ∷ 0 ∷ 0 ∷ 0 ∷ 0 ∷ [];
}

manual-IsCanFrame : IsCanFrame manual
manual-IsCanFrame = record {
  bus_byte = omega arith;
  id_word = omega arith;
  eight = refl;
  all_bytes = omega arith;
}

-- The request for `manual` under the id 2 ^ 31 + 1, and a byte behind it.
abbrev request_stream : List ℕ
request_stream =
    165 ∷ 90 ∷ 1 ∷ 10 ∷ 0 ∷ 1 ∷ 0 ∷ 19 ∷ 0 ∷ 1 ∷ 0 ∷ 0 ∷ 128 ∷ 1 ∷ 0 ∷ 3 ∷ 5 ∷ 0 ∷ 0 ∷ 8 ∷ 128 ∷ 0
    ∷ 0 ∷ 0 ∷ 0 ∷ 0 ∷ 0 ∷ 0 ∷ 176 ∷ 242 ∷ 7 ∷ []

request_stream-shown :
    view (listening request_stream).window ≡ build_host_can_tx_request 0x80000001 manual ++ (7 ∷ [])
unfolding build_host_can_tx_request host_frame can_tx_payload eight_bytes write_u16_le write_u32_le
    crc16_ccitt crc_loop crc_bits crc_bit
request_stream-shown = refl

host_can_tx_request-Arrives_example :
    Arrives (listening request_stream) 10 0x80000001 (can_tx_payload 0x80000001 manual) (7 ∷ [])
    × Requests (can_tx_payload 0x80000001 manual) 0x80000001 manual
host_can_tx_request-Arrives_example =
    host_can_tx_request-Arrives (listening request_stream) 0x80000001 manual (7 ∷ []) (omega arith)
      (omega arith) manual-IsCanFrame request_stream-shown

-- The renewal of a lease of 2 s under the id 2 ^ 31 + 2.
abbrev renewal_stream : List ℕ
renewal_stream =
    165 ∷ 90 ∷ 1 ∷ 12 ∷ 0 ∷ 2 ∷ 0 ∷ 24 ∷ 0 ∷ 2 ∷ 0 ∷ 0 ∷ 128 ∷ 2 ∷ 255 ∷ 0 ∷ 0 ∷ 208 ∷ 7 ∷ 0 ∷ 0 ∷ 0
    ∷ 0 ∷ 0 ∷ 0 ∷ 0 ∷ 0 ∷ 0 ∷ 0 ∷ 0 ∷ 0 ∷ 0 ∷ 0 ∷ 105 ∷ 122 ∷ []

renewal_stream-shown :
    view (listening renewal_stream).window ≡ build_host_control_session 0x80000002 2 255 2000 ++ []
unfolding build_host_control_session host_frame session_payload write_u16_le write_u32_le
    crc16_ccitt crc_loop crc_bits crc_bit
renewal_stream-shown = refl

host_control_session-Arrives_example :
    Arrives (listening renewal_stream) 12 0x80000002 (session_payload 0x80000002 2 255 2000) []
    × SaysSession (session_payload 0x80000002 2 255 2000) 0x80000002 2 255 2000
host_control_session-Arrives_example =
    host_control_session-Arrives (listening renewal_stream) 0x80000002 2 255 2000 [] (omega arith)
      (omega arith) (omega arith) (omega arith) (omega arith) renewal_stream-shown

-- A command of -2500 and 12.3 degrees.
make_vcu_auto_frame-SaysMotion_example :
    SaysMotion fixed
      (make_vcu_auto_frame fixed 0x510 (negsuc 2499) (pos 12300) 1 0)
      (negsuc 2499)
      (pos 12300)
      1
make_vcu_auto_frame-SaysMotion_example =
    make_vcu_auto_frame-SaysMotion fixed 0x510 (negsuc 2499) (pos 12300) 1 0

command_step-StepsSafely_example :
    StepsSafely (pos 600) (negsuc 4999) (command_step (pos 600) (negsuc 4999))
command_step-StepsSafely_example = command_step-StepsSafely (pos 600) (negsuc 4999)

abbrev limiter : ControlSlewLimiter fixed
limiter = record {
  target = record { signed_command = negsuc 9999; rpm = pos 3000; steering_deg = pos 0 };
  state = record { signed_command = pos 10000; rpm = pos 0; steering_deg = pos 0 };
}

limiter-IsInRange : IsInRange fixed limiter
limiter-IsInRange = record {
  target_range = record { command_range = omega arith; rpm_range = omega arith };
  state_range = record { command_range = omega arith; rpm_range = omega arith };
}

run_reaches_target_example :
    ((run fixed 50 limiter).state.signed_command ≡ limiter.target.signed_command)
    × ((run fixed 50 limiter).state.rpm ≡ limiter.target.rpm)
    × ((run fixed 50 limiter).target ≡ limiter.target)
run_reaches_target_example = run_reaches_target fixed limiter limiter-IsInRange

next_command_id-range_example :
    ((2 ^ 32 - 1 < 2 ^ 32 - 1)
      × ((2 ^ 31 < next_command_id (2 ^ 32 - 1)) × (next_command_id (2 ^ 32 - 1) < 2 ^ 32)))
    ⊎ ((2 ^ 32 - 1 ≡ 2 ^ 32 - 1) × (next_command_id (2 ^ 32 - 1) ≡ 0))
next_command_id-range_example = next_command_id-range (2 ^ 32 - 1) (omega arith)

request_loop-numbered_example :
    (map frame_of (request_loop plain_text "cycle" (manual ∷ manual ∷ []) 0x80000005).0
      ≡ numbered (suc 0x80000005) (manual ∷ manual ∷ []))
    × ((request_loop plain_text "cycle" (manual ∷ manual ∷ []) 0x80000005).1
        ≡ 0x80000005 + length (manual ∷ manual ∷ []))
request_loop-numbered_example =
    request_loop-numbered plain_text "cycle" (manual ∷ manual ∷ []) 0x80000005 (omega arith)
      (omega arith)

abbrev keeper : Keeper
keeper = record {
  clock_is_valid = true;
  command_counter = 0x80000005;
  last_heartbeat_ms = some 940;
  last_lease_renew_ms = some 900;
}

maintain_session-KeepsAlive_example :
    KeepsAlive 1000 keeper
      (maintain_session plain_text 1000 keeper).1
      (maintain_session plain_text 1000 keeper).0
maintain_session-KeepsAlive_example =
    maintain_session-KeepsAlive plain_text 1000 keeper (omega arith) (omega arith) (omega arith)
      (omega arith)

abbrev intent : ℕ → HostFrameIntent
intent n = record { frame = n ∷ []; summary = "" }

-- A burst of three frames of which one is sent.
abbrev under_way : Pending
under_way = record { frames = intent 1 ∷ intent 2 ∷ intent 3 ∷ []; index = 1; sending = true }

under_way-IsPaced : IsPaced under_way
under_way-IsPaced = inr (omega arith, refl)

drain_pending_frames-Advances_example :
    Advances
      (pauses true 2)
      2
      under_way
      (drain_pending_frames true 2 under_way).0
      (drain_pending_frames true 2 under_way).1
drain_pending_frames-Advances_example =
    drain_pending_frames-Advances true 2 under_way under_way-IsPaced

abbrev worker : ControlCycleRuntime fixed
worker = record (initial fixed) { pending = under_way }

continue_times-sends_all_example :
    ((continue_times fixed plain_text 2 worker).1 ≡ left worker.pending)
    × ((continue_times fixed plain_text 2 worker).0.pending.sending ≡ false)
continue_times-sends_all_example =
    continue_times-sends_all fixed plain_text 2 worker under_way-IsPaced (omega arith) refl

abbrev forward : Command fixed
forward = record {
  signed_command = pos 3000;
  rpm = pos 100;
  steering_deg = pos 0;
  motor_mode = 1;
  driving_mode = 1;
  bus = 0;
}

abbrev drive_calls : List (Call fixed plain_text)
drive_calls =
    Call.starts forward (pos 20) (pos 2)
    ∷ Call.begins 0
    ∷ Call.continues
    ∷ Call.begins 20
    ∷ Call.stops
    ∷ []

after-IsPaced_example : IsPaced (after fixed plain_text drive_calls worker).pending
after-IsPaced_example = after-IsPaced fixed plain_text drive_calls worker under_way-IsPaced
