-- ===== src/Control/Slew/Limiter.antt =====
-- Sequences of cycles of ControlSlewLimiter.
use vsm_field_workstation.Prelude.{
  ℕ, zero, suc, ◌+◌, ◌-◌, ◌/◌, ◌≤◌, ◌≡◌, refl, sym, ap, ◌∙◌, arith, if◌then◌else◌, leb, min, max,
  ◌⊎◌, subst,
}
use vsm_field_workstation.Prelude.Int.{ℤ, pos, negsuc, ◌≤ℤ◌, abs}
use vsm_field_workstation.Foreign.{Doubles}
use vsm_field_workstation.Control.Slew.{
  SlewState, ControlSlewLimiter, reset, set_target, step, step_toward_rpm,
}
use vsm_field_workstation.Control.Slew.Command.{
  command_step, rounds, rounds_fall, rounds_zero, command_step-StepsSafely,
}

abbrev rpm_step : ℤ → ℤ → ℤ
rpm_step c t = step_toward_rpm c t (pos 250) (pos 1000)

rpm_rounds : ℕ → ℕ → ℕ
rpm_rounds c t = if leb c t then (t - c + 249) / 250 else (c - t + 999) / 1000

rpm_next : ℕ → ℕ → ℕ
rpm_next c t = if leb c t then min (c + 250) t else max (c - 1000) t

rpm_step-next : (c t : ℕ) → rpm_step (pos c) (pos t) ≡ pos (rpm_next c t)
unfolding step_toward_rpm rpm_next
rpm_step-next c t = ground arith

rpm_rounds_fall : (c t : ℕ) → rpm_rounds (rpm_next c t) t ≤ rpm_rounds c t - 1
unfolding rpm_rounds rpm_next
rpm_rounds_fall c t = ground arith

rpm_rounds_zero : (c t : ℕ) → rpm_rounds c t ≡ 0 → c ≡ t
unfolding rpm_rounds
rpm_rounds_zero c t h = ground arith

rounds-le : (c t : ℤ) → abs c ≤ℤ pos 10000 → abs t ≤ℤ pos 10000 → rounds c t ≤ 50
unfolding rounds
rounds-le (pos c) (pos t) h k = ground arith
rounds-le (pos c) (negsuc t) h k = ground arith
rounds-le (negsuc c) (pos t) h k = ground arith
rounds-le (negsuc c) (negsuc t) h k = ground arith

pub record InRange (command rpm : ℤ) : Type 0 where
  pub command_range : abs command ≤ℤ pos 10000
  pub rpm_range : (pos 0 ≤ℤ rpm) × (rpm ≤ℤ pos 10000)

between_range :
    (c t n : ℤ)
    → ((c ≤ℤ n) × (n ≤ℤ t)) ⊎ ((t ≤ℤ n) × (n ≤ℤ c))
    → abs c ≤ℤ pos 10000
    → abs t ≤ℤ pos 10000
    → abs n ≤ℤ pos 10000
between_range c t n b hc ht = ground arith

InRange-next : (c t r u : ℤ) → InRange c r → InRange t u → InRange (command_step c t) (rpm_step r u)
InRange-next c t (pos r) (pos u) a b = rw (rpm_step-next r u) (
    unfold rpm_next in
    record {
      command_range =
          between_range c t (command_step c t) (command_step-StepsSafely c t).between
            a.command_range b.command_range;
      rpm_range = ground arith;
    })
InRange-next c t (negsuc r) u a b = absurd (omega (arith, a.rpm_range.0))
InRange-next c t (pos r) (negsuc u) a b = absurd (omega (arith, b.rpm_range.0))

module _ (d : Doubles) where
  pub record IsInRange (l : ControlSlewLimiter d) : Type 0 where
    pub target_range : InRange l.target.signed_command l.target.rpm
    pub state_range : InRange l.state.signed_command l.state.rpm

  pub reset-IsInRange : (s : SlewState d) (l : ControlSlewLimiter d) → IsInRange (reset d s l)
  unfolding reset
  reset-IsInRange s l = record {
    target_range = record { command_range = ground arith; rpm_range = ground arith };
    state_range = record { command_range = ground arith; rpm_range = ground arith };
  }

  pub set_target-IsInRange :
      (s : SlewState d) (l : ControlSlewLimiter d) → IsInRange l → IsInRange (set_target d s l)
  unfolding set_target
  set_target-IsInRange s l h = record {
    target_range = record { command_range = ground arith; rpm_range = ground arith };
    state_range = h.state_range;
  }

  pub run : ℕ → ControlSlewLimiter d → ControlSlewLimiter d
  run zero l = l
  run (suc n) l = run n (step d l)

  pub step-IsInRange : (l : ControlSlewLimiter d) → IsInRange l → IsInRange (step d l)
  unfolding step
  step-IsInRange l h = record {
    target_range = h.target_range;
    state_range =
        InRange-next l.state.signed_command l.target.signed_command l.state.rpm l.target.rpm
          h.state_range h.target_range;
  }

  run_target : (n : ℕ) (l : ControlSlewLimiter d) → (run n l).target ≡ l.target
  unfolding run step
  run_target zero l = refl
  run_target (suc n) l = run_target n (step d l)

  rounds-step :
      (l : ControlSlewLimiter d) (t : ℤ)
      → l.target.signed_command ≡ t
      → rounds (step d l).state.signed_command t ≤ rounds l.state.signed_command t - 1
  unfolding step
  rounds-step l t e =
      let c : ℤ = l.state.signed_command in
      subst (λ (u : ℤ). rounds (command_step c u) t ≤ rounds c t - 1) (sym e) (rounds_fall c t)

  step_target : (l : ControlSlewLimiter d) → (step d l).target ≡ l.target
  unfolding step
  step_target l = refl

  rounds-run :
      (n : ℕ) (l : ControlSlewLimiter d) (t : ℤ)
      → l.target.signed_command ≡ t
      → rounds (run n l).state.signed_command t ≤ rounds l.state.signed_command t - n
  unfolding run
  rounds-run zero l t e = omega arith
  rounds-run (suc n) l t e =
      let same : (step d l).target.signed_command ≡ t =
        ap (λ (s : SlewState d). s.signed_command) (step_target l) ∙ e in
      omega (arith, rounds-run n (step d l) t same, rounds-step l t e)

  -- From any state in range the command stands at the target after 50 cycles.
  command_reached :
      (l : ControlSlewLimiter d)
      → IsInRange l
      → (run 50 l).state.signed_command ≡ l.target.signed_command
  command_reached l h = rounds_zero (run 50 l).state.signed_command l.target.signed_command (
      omega (
        arith,
        rounds-run 50 l l.target.signed_command refl,
        rounds-le l.state.signed_command l.target.signed_command h.state_range.command_range
            h.target_range.command_range,
      ))

  step_rpm :
      (l : ControlSlewLimiter d) (r u : ℕ)
      → l.state.rpm ≡ pos r
      → l.target.rpm ≡ pos u
      → (step d l).state.rpm ≡ pos (rpm_next r u)
  unfolding step
  step_rpm l r u hr hu = rw (hr, hu) (rpm_step-next r u)

  run_rpm :
      (n : ℕ) (l : ControlSlewLimiter d) (r u : ℕ)
      → l.state.rpm ≡ pos r
      → l.target.rpm ≡ pos u
      → (r' : ℕ) × ((run n l).state.rpm ≡ pos r') × (rpm_rounds r' u ≤ rpm_rounds r u - n)
  unfolding run
  run_rpm zero l r u hr hu = (r, hr, omega arith)
  run_rpm (suc n) l r u hr hu =
      let (r', e, fewer) =
        run_rpm n (step d l) (rpm_next r u) u (step_rpm l r u hr hu) (unfold step in hu) in
      (r', e, omega (arith, fewer, rpm_rounds_fall r u))

  rpm_reached :
      (l : ControlSlewLimiter d) (x y : ℤ)
      → l.state.rpm ≡ x
      → l.target.rpm ≡ y
      → (pos 0 ≤ℤ x) × (x ≤ℤ pos 10000)
      → (pos 0 ≤ℤ y) × (y ≤ℤ pos 10000)
      → (run 50 l).state.rpm ≡ y
  rpm_reached l (pos r) (pos u) hr hu (a, b) (a', b') =
      let (r', e, fewer) = run_rpm 50 l r u hr hu in
      e ∙ ap pos (rpm_rounds_zero r' u (omega (arith, fewer, few)))
    where
      few : rpm_rounds r u ≤ 50
      few = unfold rpm_rounds in ground arith
  rpm_reached l (negsuc r) y hr hu (a, b) h = absurd (omega arith)
  rpm_reached l (pos r) (negsuc u) hr hu h (a, b) = absurd (omega arith)

  -- From any state in range, 50 cycles with the target left alone bring the command and the rpm exactly
  -- to the target.
  pub run_reaches_target :
      (l : ControlSlewLimiter d)
      → IsInRange l
      → ((run 50 l).state.signed_command ≡ l.target.signed_command)
        × ((run 50 l).state.rpm ≡ l.target.rpm)
        × ((run 50 l).target ≡ l.target)
  run_reaches_target l h = (
    command_reached l h,
    rpm_reached l l.state.rpm l.target.rpm refl refl h.state_range.rpm_range
        h.target_range.rpm_range,
    run_target 50 l,
  )
