-- ===== src/Control/Cycle/Operations.antt =====
-- The state and the operations of ControlCycleRuntime: src/backend/control/ControlCycleRuntime.h and
-- ControlCycleRuntime.cpp. A double is a number of the parameter `d`.
use Prim.Native.String.{String}
use vsm_field_workstation.Prelude.{
  ℕ, Bool, true, false, none, [], ◌++◌, ◌==◌, if◌then◌else◌, add_u, ltb,
}
use vsm_field_workstation.Prelude.Int.{ℤ, pos, negsuc, clamp}
use vsm_field_workstation.Foreign.{Qt, Doubles}
use vsm_field_workstation.HostTx.{is_blank}
use vsm_field_workstation.Control.Encoder.{make_control_burst, clamp_double}
use vsm_field_workstation.Control.Slew
use vsm_field_workstation.Control.Slew.{SlewState, ControlSlewLimiter, set_target}
use vsm_field_workstation.Control.Cycle.{
  CycleResult, no_result, Pending, clear_pending, drain_pending_frames, Keeper, maintain_session,
  request_loop,
}

-- The arguments that start, update and burstOnce share.
pub record Command (d : Doubles) : Type 0 where
  pub signed_command : ℤ
  pub rpm : ℤ
  pub steering_deg : d.Double
  pub motor_mode : ℕ
  pub driving_mode : ℕ
  pub bus : ℕ

module _ (d : Doubles) where
  open d use {Double, milli}

  pub record ControlCycleRuntime : Type 0 where
    pub enabled : Bool
    pub period_ms : ℕ
    pub frame_gap_ms : ℕ
    pub signed_command : ℤ
    pub rpm : ℤ
    pub steering_deg : Double
    pub slew_limiter : ControlSlewLimiter d
    pub motor_mode : ℕ
    pub driving_mode : ℕ
    pub bus : ℕ
    pub alive_counter : ℕ
    pub keeper : Keeper
    pub pending : Pending

  abbrev zero_state : SlewState d
  zero_state = record { signed_command = pos 0; rpm = pos 0; steering_deg = milli (pos 0) }

  -- The state the constructor leaves.
  abbrev pub initial : ControlCycleRuntime
  initial = record {
    enabled = false;
    period_ms = 20;
    frame_gap_ms = 2;
    signed_command = pos 0;
    rpm = pos 0;
    steering_deg = milli (pos 0);
    slew_limiter = record { target = zero_state; state = zero_state };
    motor_mode = 1;
    driving_mode = 1;
    bus = 0;
    alive_counter = 0;
    keeper = record {
      clock_is_valid = false;
      command_counter = 0x80000000;
      last_heartbeat_ms = none;
      last_lease_renew_ms = none;
    };
    pending = record { frames = []; index = 0; sending = false };
  }

  abbrev pub target : ControlCycleRuntime → SlewState d
  target r = record {
    signed_command = r.signed_command;
    rpm = r.rpm;
    steering_deg = r.steering_deg;
  }

  unfoldable pub update : Command d → ControlCycleRuntime → ControlCycleRuntime
  unfolding set_target
  update c r =
      let clamped : ControlCycleRuntime = record r {
        signed_command = clamp c.signed_command (negsuc 9999) (pos 10000);
        rpm = clamp c.rpm (pos 0) (pos 10000);
        steering_deg = clamp_double d c.steering_deg (milli (negsuc 89999)) (milli (pos 90000));
        motor_mode = if c.motor_mode == 2 then 2 else 1;
        driving_mode = c.driving_mode;
        bus = c.bus;
      } in
      record clamped { slew_limiter = set_target d (target clamped) clamped.slew_limiter }

  -- std::clamp on an int between two numbers.
  abbrev clamp_int : ℤ → ℕ → ℕ → ℕ
  clamp_int (pos n) lo hi = if ltb n lo then lo else if ltb hi n then hi else n
  clamp_int (negsuc n) lo hi = lo

  unfoldable pub start : Command d → ℤ → ℤ → ControlCycleRuntime → ControlCycleRuntime
  unfolding update set_target clear_pending
  start c period_ms frame_gap_ms r =
      let updated = update c r in
      record updated {
        slew_limiter = set_target d (target updated) (Slew.reset d zero_state updated.slew_limiter);
        period_ms = clamp_int period_ms 5 1000;
        frame_gap_ms = clamp_int frame_gap_ms 0 20;
        enabled = true;
        keeper = record updated.keeper {
          clock_is_valid = true;
          last_heartbeat_ms = none;
          last_lease_renew_ms = none;
        };
        pending = clear_pending updated.pending;
      }

  unfoldable pub stop : ControlCycleRuntime → ControlCycleRuntime
  unfolding clear_pending
  stop r = record r {
    enabled = false;
    signed_command = pos 0;
    rpm = pos 0;
    steering_deg = milli (pos 0);
    slew_limiter = Slew.reset d zero_state r.slew_limiter;
    pending = clear_pending r.pending;
  }

  unfoldable pub drain : Bool → ControlCycleRuntime → ControlCycleRuntime × CycleResult
  unfolding drain_pending_frames
  drain respect_frame_gap r =
      let (pending, result) = drain_pending_frames respect_frame_gap r.frame_gap_ms r.pending in
      (record r { pending = pending }, result)

  unfoldable pub continue_paced_burst : ControlCycleRuntime → ControlCycleRuntime × CycleResult
  unfolding drain
  continue_paced_burst r = drain true r

  module _ (qt : Qt) where
    -- makeBurst up to its last call: what it leaves to be drained.
    unfoldable pub prepare_burst : String → ControlCycleRuntime → ControlCycleRuntime
    unfolding request_loop
    prepare_burst reason r =
        let limiter = Slew.step d r.slew_limiter in
        let frames =
          make_control_burst d limiter.state.signed_command limiter.state.steering_deg r.motor_mode
            r.driving_mode r.alive_counter r.bus in
        let (requests, last) = request_loop qt reason frames r.keeper.command_counter in
        record r {
          slew_limiter = limiter;
          alive_counter = add_u 8 r.alive_counter 1;
          keeper = record r.keeper { command_counter = last };
          pending = record { frames = requests; index = 0; sending = true };
        }

    unfoldable pub make_burst :
        String → Bool → ControlCycleRuntime → ControlCycleRuntime × CycleResult
    unfolding prepare_burst drain
    make_burst reason respect_frame_gap r = drain respect_frame_gap (prepare_burst reason r)

    unfoldable pub begin_cycle : ℕ → ControlCycleRuntime → ControlCycleRuntime × CycleResult
    unfolding maintain_session make_burst drain
    begin_cycle now_ms r =
        let (session, keeper) = maintain_session qt now_ms r.keeper in
        let kept : ControlCycleRuntime = record r { keeper = keeper } in
        let (after, burst) =
          if r.pending.sending
          then drain true kept
          else make_burst "worker control cycle" true kept in
        if r.enabled
        then (after, record burst { frames = session ++ burst.frames })
        else (r, no_result)

    unfoldable pub burst_once :
        Command d → String → Bool → Bool → ControlCycleRuntime → ControlCycleRuntime × CycleResult
    unfolding update make_burst
    burst_once c reason reset_slew respect_frame_gap r =
        let updated = update c r in
        let ready : ControlCycleRuntime =
          if reset_slew
          then record updated { slew_limiter = Slew.reset d (target updated) updated.slew_limiter }
          else updated in
        make_burst (if is_blank reason then "worker one-shot" else reason) respect_frame_gap ready
