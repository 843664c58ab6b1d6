-- ===== src/Control/Cycle.antt =====
-- The control cycle of the serial worker: src/backend/control/ControlCycleRuntime.h and
-- ControlCycleRuntime.cpp. The reading of the clock that a call makes is its argument `now_ms`. A
-- time of -1, for none, is `none`.
pub mod Operations
pub mod Draining
pub mod Ids
pub mod Session
pub mod Calls
use Prim.Native.String.{String}
use vsm_field_workstation.Prelude.{
  ℕ, zero, suc, ◌+◌, ◌-◌, ◌^◌, Bool, true, false, not, ◌&&◌, ◌||◌, Option, none, some, List, [],
  ◌∷◌, ◌++◌, ltb, leb, ◌==◌, if◌then◌else◌, add_u, length, get_or, bit_and,
}
use vsm_field_workstation.Foreign.{Qt}
use vsm_field_workstation.HostTx.{is_empty}
use vsm_field_workstation.Control.Encoder.{
  ControlCanFrame, build_host_can_tx_request, build_host_heartbeat, build_host_control_session,
  frame_summary, control_session_renew_lease, control_session_any_bus,
}

abbrev pub control_heartbeat_period_ms : ℕ
control_heartbeat_period_ms = 50

abbrev pub control_lease_renew_period_ms : ℕ
control_lease_renew_period_ms = 250

abbrev pub control_lease_ms : ℕ
control_lease_ms = 2000

pub record HostFrameIntent : Type 0 where
  pub frame : List ℕ
  pub summary : String

pub record CycleResult : Type 0 where
  pub frames : List HostFrameIntent
  pub errors : List String
  pub schedule_gap : Bool
  pub gap_ms : ℕ

-- The frames of a burst that are still to be sent: m_pendingFrames, m_pendingIndex and m_sending.
pub record Pending : Type 0 where
  pub frames : List HostFrameIntent
  pub index : ℕ
  pub sending : Bool

unfoldable pub clear_pending : Pending → Pending
clear_pending p = record { frames = []; index = 0; sending = false }

abbrev pub no_intent : HostFrameIntent
no_intent = record { frame = []; summary = "" }

-- The loop of drainPendingFrames; `rounds` is at least the number of frames that are left.
unfoldable pub drain_loop : ℕ → Bool → ℕ → Pending → CycleResult → Pending × CycleResult
unfolding clear_pending
drain_loop zero respect_frame_gap gap_ms p result = (p, result)
drain_loop (suc rounds) respect_frame_gap gap_ms p result =
    let sent : CycleResult = record result {
      frames = result.frames ++ (get_or p.frames p.index no_intent ∷ []);
    } in
    let rest = drain_loop rounds respect_frame_gap gap_ms (record p { index = p.index + 1 }) sent in
    if not (ltb p.index (length p.frames))
    then (p, result)
    else if leb (length p.frames) (p.index + 1)
    then (clear_pending p, sent)
    else if respect_frame_gap && ltb 0 gap_ms
    then (record p { index = p.index + 1 }, record sent { schedule_gap = true; gap_ms = gap_ms })
    else rest

abbrev pub no_result : CycleResult
no_result = record { frames = []; errors = []; schedule_gap = false; gap_ms = 0 }

unfoldable pub drain_pending_frames : Bool → ℕ → Pending → Pending × CycleResult
unfolding drain_loop
drain_pending_frames respect_frame_gap gap_ms p =
    let (q, result) = drain_loop (suc (length p.frames)) respect_frame_gap gap_ms p no_result in
    (if is_empty q.frames then record q { sending = false } else q, result)

-- The new counter is also the id.
unfoldable pub next_command_id : ℕ → ℕ
next_command_id counter = add_u 32 (if ltb counter 0x80000000 then 0x80000000 else counter) 1

module _ (qt : Qt) where
  -- The loop of makeBurst over the frames of the burst.
  unfoldable pub request_loop : String → List ControlCanFrame → ℕ → List HostFrameIntent × ℕ
  request_loop reason [] counter = ([], counter)
  request_loop reason (frame ∷ frames) counter =
      let command_id = next_command_id counter in
      let (rest, last) = request_loop reason frames command_id in
      (
        record {
          frame = build_host_can_tx_request command_id frame;
          summary =
              qt.arg (qt.arg (qt.arg_number "#%1 %2 %3" command_id) reason)
                (frame_summary qt frame);
        }
            ∷ rest,
        last,
      )

-- The part of the state that keeps the session of the board alive.
pub record Keeper : Type 0 where
  pub clock_is_valid : Bool
  pub command_counter : ℕ
  pub last_heartbeat_ms : Option ℕ
  pub last_lease_renew_ms : Option ℕ

-- `last < 0 || nowMs - last >= period`
unfoldable pub is_due : Option ℕ → ℕ → ℕ → Bool
is_due none now_ms period = true
is_due (some last) now_ms period = leb period (now_ms - last)

module _ (qt : Qt) where
  unfoldable pub send_heartbeat : ℕ → Keeper → List HostFrameIntent × Keeper
  unfolding is_due next_command_id
  send_heartbeat now_ms k =
      let command_id = next_command_id k.command_counter in
      if is_due k.last_heartbeat_ms now_ms control_heartbeat_period_ms
      then (
        record {
          frame = build_host_heartbeat command_id (bit_and now_ms 0xFFFFFFFF);
          summary = qt.arg_number "#%1 worker HOST_HEARTBEAT" command_id;
        }
            ∷ [],
        record k { command_counter = command_id; last_heartbeat_ms = some now_ms },
      )
      else ([], k)

  unfoldable pub renew_lease : ℕ → Keeper → List HostFrameIntent × Keeper
  unfolding is_due next_command_id
  renew_lease now_ms k =
      let command_id = next_command_id k.command_counter in
      if is_due k.last_lease_renew_ms now_ms control_lease_renew_period_ms
      then (
        record {
          frame =
              build_host_control_session command_id control_session_renew_lease
                control_session_any_bus control_lease_ms;
          summary = qt.arg_number "#%1 worker HOST_CONTROL_SESSION RENEW_LEASE" command_id;
        }
            ∷ [],
        record k { command_counter = command_id; last_lease_renew_ms = some now_ms },
      )
      else ([], k)

  unfoldable pub maintain_session : ℕ → Keeper → List HostFrameIntent × Keeper
  unfolding send_heartbeat renew_lease
  maintain_session now_ms k =
      let (heartbeat, beaten) = send_heartbeat now_ms (record k { clock_is_valid = true }) in
      let (renewal, kept) = renew_lease now_ms beaten in (heartbeat ++ renewal, kept)
