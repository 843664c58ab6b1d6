-- ===== src/Control/Slew.antt =====
-- The slew limiter: src/backend/control/ControlSlewLimiter.h and ControlSlewLimiter.cpp.
-- An `int` is an integer; the values stay within ±10000, so the sums of the source do not overflow.
-- The steering angle is a double, a parameter of the model.
pub mod Command
pub mod Limiter
use vsm_field_workstation.Prelude.{ℕ, Bool, true, false, not, ◌&&◌, ◌||◌, if◌then◌else◌}
use vsm_field_workstation.Prelude.Int.{
  ℤ, pos, negsuc, ◌+ℤ◌, ◌-ℤ◌, ltb_ℤ, eq_ℤ, min_ℤ, max_ℤ, abs, clamp,
}
use vsm_field_workstation.Foreign.{Doubles}

unfoldable pub step_toward_int : ℤ → ℤ → ℤ → ℤ
unfolding ◌+ℤ◌ ◌-ℤ◌
step_toward_int current target max_step =
    if ltb_ℤ current target
    then min_ℤ (current +ℤ max_step) target
    else if ltb_ℤ target current
    then max_ℤ (current -ℤ max_step) target
    else current

unfoldable pub differ : Bool → Bool → Bool
differ true b = not b
differ false b = b

unfoldable pub has_opposite_non_zero_sign : ℤ → ℤ → Bool
unfolding differ
has_opposite_non_zero_sign current target =
    not (eq_ℤ current (pos 0))
    && not (eq_ℤ target (pos 0))
    && differ (ltb_ℤ current (pos 0)) (ltb_ℤ target (pos 0))

unfoldable pub step_toward_signed_command : ℤ → ℤ → ℤ → ℤ → ℤ
unfolding step_toward_int has_opposite_non_zero_sign
step_toward_signed_command current target accel_step brake_step =
    let braking = eq_ℤ target (pos 0) || ltb_ℤ (abs target) (abs current) in
    if has_opposite_non_zero_sign current target
    then step_toward_int current (pos 0) brake_step
    else step_toward_int current target (if braking then brake_step else accel_step)

unfoldable pub step_toward_rpm : ℤ → ℤ → ℤ → ℤ → ℤ
unfolding step_toward_int
step_toward_rpm current target accel_step brake_step =
    step_toward_int current target (if ltb_ℤ target current then brake_step else accel_step)

abbrev pub max_command_accel_step_per_cycle : ℤ
max_command_accel_step_per_cycle = pos 250

abbrev pub max_command_brake_step_per_cycle : ℤ
max_command_brake_step_per_cycle = pos 1000

abbrev pub max_rpm_accel_step_per_cycle : ℤ
max_rpm_accel_step_per_cycle = pos 250

abbrev pub max_rpm_brake_step_per_cycle : ℤ
max_rpm_brake_step_per_cycle = pos 1000

module _ (d : Doubles) where
  open d use {Double, milli, lt, plus, minus, fabs}

  -- ControlSlewTarget and ControlSlewState have the same three fields.
  pub record SlewState : Type 0 where
    pub signed_command : ℤ
    pub rpm : ℤ
    pub steering_deg : Double

  pub record ControlSlewLimiter : Type 0 where
    pub target : SlewState
    pub state : SlewState

  -- std::min(a, b) and std::max(a, b).
  unfoldable pub min_double : Double → Double → Double
  min_double a b = if lt b a then b else a

  unfoldable pub max_double : Double → Double → Double
  max_double a b = if lt a b then b else a

  unfoldable pub clamp_steering : Double → Double
  clamp_steering x =
      if lt x (milli (negsuc 89999))
      then milli (negsuc 89999)
      else if lt (milli (pos 90000)) x
      then milli (pos 90000)
      else x

  unfoldable pub step_toward_double : Double → Double → Double → Double
  unfolding min_double max_double
  step_toward_double current target max_step =
      if lt current target
      then min_double (plus current max_step) target
      else if lt target current
      then max_double (minus current max_step) target
      else current

  unfoldable pub has_opposite_sign_double : Double → Double → Bool
  unfolding differ
  has_opposite_sign_double current target =
      lt (milli (pos 1)) (fabs current)
      && lt (milli (pos 1)) (fabs target)
      && differ (lt current (milli (pos 0))) (lt target (milli (pos 0)))

  unfoldable pub step_toward_steering : Double → Double → Double → Double → Double
  unfolding step_toward_double has_opposite_sign_double
  step_toward_steering current target steer_step return_step =
      let returning = lt (fabs target) (milli (pos 1)) || lt (fabs target) (fabs current) in
      if has_opposite_sign_double current target
      then step_toward_double current (milli (pos 0)) return_step
      else step_toward_double current target (if returning then return_step else steer_step)

  -- clampTarget and clampState.
  unfoldable pub clamp_state : SlewState → SlewState
  clamp_state s = record {
    signed_command = clamp s.signed_command (negsuc 9999) (pos 10000);
    rpm = clamp s.rpm (pos 0) (pos 10000);
    steering_deg = clamp_steering s.steering_deg;
  }

  unfoldable pub reset : SlewState → ControlSlewLimiter → ControlSlewLimiter
  unfolding clamp_state
  reset s l = record { target = clamp_state s; state = clamp_state s }

  unfoldable pub set_target : SlewState → ControlSlewLimiter → ControlSlewLimiter
  unfolding clamp_state
  set_target t l = record l { target = clamp_state t }

  unfoldable pub step : ControlSlewLimiter → ControlSlewLimiter
  unfolding step_toward_signed_command step_toward_rpm step_toward_steering
  step l = record l {
    state = record {
      signed_command =
          step_toward_signed_command l.state.signed_command l.target.signed_command
            max_command_accel_step_per_cycle max_command_brake_step_per_cycle;
      rpm =
          step_toward_rpm l.state.rpm l.target.rpm max_rpm_accel_step_per_cycle
            max_rpm_brake_step_per_cycle;
      steering_deg =
          step_toward_steering l.state.steering_deg l.target.steering_deg (milli (pos 5000))
            (milli (pos 15000));
    };
  }
