-- ===== src/Control/Runtime/Range.antt =====
-- The state of src/backend/control/ControlRuntime.cpp over its calls: the ranges of the target and the
-- intent.
use vsm_field_workstation.Prelude.{
  ℕ, ◌≡◌, refl, ◌⊎◌, inl, inr, Bool, false, List, [], ◌∷◌, arith, ◌==◌, Bool-cases,
}
use vsm_field_workstation.Prelude.Int.{ℤ, pos, negsuc, ◌≤ℤ◌, clamp_bounds}
use vsm_field_workstation.Foreign.{Doubles}
use vsm_field_workstation.Control.Runtime.{
  ControlRuntime, ControlTarget, ControlCommandIntent, new_runtime, take_command_id, set_armed,
  set_test_running, set_target_bus, set_target_rpm, clamp_deg, set_target_steering_deg,
  set_current_intent, set_status_text, set_last_command_summary, set_last_heartbeat_wall_ms,
  set_last_lease_renew_wall_ms, set_last_burst_wall_ms, clear_burst_wall_ms, reset_pattern_state,
  take_alive_counter, Call, step, run, sets_armed, sets_test_running, sets_target_bus,
  sets_target_rpm, sets_target_steering_deg, sets_current_intent, sets_status_text,
  sets_last_command_summary, sets_last_heartbeat_wall_ms, sets_last_lease_renew_wall_ms,
  sets_last_burst_wall_ms, clears_burst_wall_ms, resets_pattern_state, takes_command_id,
  takes_alive_counter,
}

module _ (d : Doubles) where
  open d use {Double, milli, lt}

  -- Not below -90 and not above 90, as `<` of the doubles tells.
  abbrev pub IsSteering : Double → Type 0
  IsSteering x = (lt x (milli (negsuc 89999)) ≡ false) × (lt (milli (pos 90000)) x ≡ false)

  pub record IsTarget (t : ControlTarget d) : Type 0 where
    pub bus : (pos 0 ≤ℤ t.bus) × (t.bus ≤ℤ pos 255)
    pub rpm : (pos 0 ≤ℤ t.rpm) × (t.rpm ≤ℤ pos 10000)
    pub steering : IsSteering t.steering_deg

  pub record IsIntent (i : ControlCommandIntent d) : Type 0 where
    pub command : (negsuc 9999 ≤ℤ i.signed_command) × (i.signed_command ≤ℤ pos 10000)
    pub rpm : (pos 0 ≤ℤ i.rpm) × (i.rpm ≤ℤ pos 10000)
    pub steering : IsSteering i.steering_deg
    pub motor : (i.motor_mode ≡ 1) ⊎ (i.motor_mode ≡ 2)

  pub record IsInRange (r : ControlRuntime d) : Type 0 where
    pub target : IsTarget r.target
    pub intent : IsIntent r.current_intent

  -- What is known of the order of the doubles: the three bounds are told apart.
  pub record BoundsOrdered : Type 0 where
    pub low_low : lt (milli (negsuc 89999)) (milli (negsuc 89999)) ≡ false
    pub high_high : lt (milli (pos 90000)) (milli (pos 90000)) ≡ false
    pub high_low : lt (milli (pos 90000)) (milli (negsuc 89999)) ≡ false
    pub zero_low : lt (milli (pos 0)) (milli (negsuc 89999)) ≡ false
    pub high_zero : lt (milli (pos 90000)) (milli (pos 0)) ≡ false

  module _ (order : BoundsOrdered) where
    clamp_deg-IsSteering : (x : Double) → IsSteering (clamp_deg d x)
    unfolding clamp_deg
    clamp_deg-IsSteering x = elim (Bool-cases (lt x (milli (negsuc 89999)))) [
      | inl low ↦ rw low (order.low_low, order.high_low)
      | inr e ↦ elim (Bool-cases (lt (milli (pos 90000)) x)) [
        | inl high ↦ rw (e, high) (order.high_low, order.high_high)
        | inr h ↦ rw (e, h) (e, h)
      ]
    ]

    new_runtime-IsInRange : IsInRange (new_runtime d)
    new_runtime-IsInRange =
        let zero_steering : IsSteering (milli (pos 0)) = (order.zero_low, order.high_zero) in
        record {
          target = record { bus = omega arith; rpm = omega arith; steering = zero_steering };
          intent = record {
            command = omega arith;
            rpm = omega arith;
            steering = zero_steering;
            motor = inl refl;
          };
        }

    set_current_intent-IsInRange :
        (command rpm : ℤ) (deg : Double) (motor driving : ℕ) (r : ControlRuntime d)
        → IsInRange r
        → IsInRange (set_current_intent d command rpm deg motor driving r)
    unfolding set_current_intent
    set_current_intent-IsInRange command rpm deg motor driving r v = record {
      target = v.target;
      intent = record {
        command = clamp_bounds command (negsuc 9999) (pos 10000) (omega arith);
        rpm = clamp_bounds rpm (pos 0) (pos 10000) (omega arith);
        steering = clamp_deg-IsSteering deg;
        motor = elim (Bool-cases (motor == 2)) [
          | inl e ↦ rw e (inr refl)
          | inr e ↦ rw e (inl refl)
        ];
      };
    }

    set_target_bus-IsInRange :
        (bus : ℤ) (manual : Bool) (r : ControlRuntime d)
        → IsInRange r
        → IsInRange (set_target_bus d bus manual r)
    unfolding set_target_bus
    set_target_bus-IsInRange bus manual r v = record {
      target = record {
        bus = clamp_bounds bus (pos 0) (pos 255) (omega arith);
        rpm = v.target.rpm;
        steering = v.target.steering;
      };
      intent = v.intent;
    }

    set_target_rpm-IsInRange :
        (rpm : ℤ) (r : ControlRuntime d) → IsInRange r → IsInRange (set_target_rpm d rpm r)
    unfolding set_target_rpm
    set_target_rpm-IsInRange rpm r v = record {
      target = record {
        bus = v.target.bus;
        rpm = clamp_bounds rpm (pos 0) (pos 10000) (omega arith);
        steering = v.target.steering;
      };
      intent = v.intent;
    }

    set_target_steering_deg-IsInRange :
        (deg : Double) (r : ControlRuntime d)
        → IsInRange r
        → IsInRange (set_target_steering_deg d deg r)
    unfolding set_target_steering_deg
    set_target_steering_deg-IsInRange deg r v = record {
      target = record {
        bus = v.target.bus;
        rpm = v.target.rpm;
        steering = clamp_deg-IsSteering deg;
      };
      intent = v.intent;
    }

    -- A call that leaves target and intent alone.
    kept :
        (r q : ControlRuntime d)
        → q.target ≡ r.target
        → q.current_intent ≡ r.current_intent
        → IsInRange r
        → IsInRange q
    kept r q t i v = record { target = rw t v.target; intent = rw i v.intent }

    step-IsInRange : (c : Call d) (r : ControlRuntime d) → IsInRange r → IsInRange (step d c r)
    unfolding step set_armed set_test_running set_status_text set_last_command_summary
        set_last_heartbeat_wall_ms set_last_lease_renew_wall_ms set_last_burst_wall_ms
        clear_burst_wall_ms reset_pattern_state take_command_id take_alive_counter
    step-IsInRange (sets_armed b) r v = kept r _ refl refl v
    step-IsInRange (sets_test_running b) r v = kept r _ refl refl v
    step-IsInRange (sets_target_bus bus manual) r v = set_target_bus-IsInRange bus manual r v
    step-IsInRange (sets_target_rpm rpm) r v = set_target_rpm-IsInRange rpm r v
    step-IsInRange (sets_target_steering_deg deg) r v = set_target_steering_deg-IsInRange deg r v
    step-IsInRange (sets_current_intent command rpm deg motor driving) r v =
        set_current_intent-IsInRange command rpm deg motor driving r v
    step-IsInRange (sets_status_text text) r v =
        kept r (set_status_text d text r) (ground arith) (ground arith) v
    step-IsInRange (sets_last_command_summary text) r v = kept r _ refl refl v
    step-IsInRange (sets_last_heartbeat_wall_ms t) r v = kept r _ refl refl v
    step-IsInRange (sets_last_lease_renew_wall_ms t) r v = kept r _ refl refl v
    step-IsInRange (sets_last_burst_wall_ms t) r v = kept r _ refl refl v
    step-IsInRange clears_burst_wall_ms r v = kept r _ refl refl v
    step-IsInRange resets_pattern_state r v = kept r _ refl refl v
    step-IsInRange takes_command_id r v = kept r _ refl refl v
    step-IsInRange takes_alive_counter r v = kept r _ refl refl v

    run-IsInRange :
        (cs : List (Call d)) (r : ControlRuntime d) → IsInRange r → IsInRange (run d cs r)
    unfolding run
    run-IsInRange [] r v = v
    run-IsInRange (c ∷ cs) r v = run-IsInRange cs (step d c r) (step-IsInRange c r v)

    -- If the doubles order -90, 0 and 90, then from a new object, whatever calls follow, the bus of the
    -- target is within 0 and 255, the rpm of target and intent within 0 and 10000, the command within
    -- ±10000, no steering angle is below -90 or above 90, and the motor mode is 1 or 2.
    pub run-new_runtime-IsInRange : (cs : List (Call d)) → IsInRange (run d cs (new_runtime d))
    run-new_runtime-IsInRange cs = run-IsInRange cs (new_runtime d) new_runtime-IsInRange
