-- ===== src/Control/Slew/Command.antt =====
-- The signed command of src/backend/control/ControlSlewLimiter.cpp, one cycle at a time, in plain
-- numbers by the signs of command and target.
use vsm_field_workstation.Prelude.{
  ℕ, zero, suc, ◌+◌, ◌-◌, ◌/◌, ◌≤◌, ◌≡◌, ◌⊎◌, arith, if◌then◌else◌, leb, ltb, min, max,
}
use vsm_field_workstation.Prelude.Int.{ℤ, pos, negsuc, ◌+ℤ◌, ◌≤ℤ◌, abs}
use vsm_field_workstation.Control.Slew.{step_toward_signed_command}

abbrev pub command_step : ℤ → ℤ → ℤ
command_step c t = step_toward_signed_command c t (pos 250) (pos 1000)

-- The step in plain numbers, by the signs of the command and the target.
next : ℕ → ℕ → ℕ
next c t = if leb c t then min (c + 250) t else max (c - 1000) t

step-pos-pos : (c t : ℕ) → command_step (pos c) (pos t) ≡ pos (next c t)
unfolding step_toward_signed_command next
step-pos-pos c t = ground arith

step-neg-neg : (c t : ℕ) → command_step (negsuc c) (negsuc t) ≡ negsuc (next c t)
unfolding step_toward_signed_command next
step-neg-neg c t = ground arith

step-zero-neg : (t : ℕ) → command_step (pos 0) (negsuc t) ≡ negsuc (min 249 t)
unfolding step_toward_signed_command
step-zero-neg t = ground arith

step-pos-neg : (c t : ℕ) → command_step (pos (suc c)) (negsuc t) ≡ pos (suc c - 1000)
unfolding step_toward_signed_command
step-pos-neg c t = ground arith

step-neg-pos :
    (c t : ℕ) → command_step (negsuc c) (pos t) ≡ (if ltb c 1000 then pos 0 else negsuc (c - 1000))
unfolding step_toward_signed_command
step-neg-pos c t = ground arith

-- Cycles that the command needs at most.
unfoldable pub rounds : ℤ → ℤ → ℕ
rounds (pos c) (pos t) = if leb c t then (t - c + 249) / 250 else (c - t + 999) / 1000
rounds (negsuc c) (negsuc t) = if leb c t then (t - c + 249) / 250 else (c - t + 999) / 1000
rounds (pos c) (negsuc t) = (c + 999) / 1000 + (suc t + 249) / 250
rounds (negsuc c) (pos t) = (suc c + 999) / 1000 + (t + 249) / 250

pub rounds_fall : (c t : ℤ) → rounds (command_step c t) t ≤ rounds c t - 1
unfolding rounds next
rounds_fall (pos c) (pos t) = rw (step-pos-pos c t) (ground arith)
rounds_fall (pos zero) (negsuc t) = rw (step-zero-neg t) (ground arith)
rounds_fall (pos (suc c)) (negsuc t) = rw (step-pos-neg c t) (ground arith)
rounds_fall (negsuc c) (pos t) = rw (step-neg-pos c t) (ground arith)
rounds_fall (negsuc c) (negsuc t) = rw (step-neg-neg c t) (ground arith)

pub rounds_zero : (c t : ℤ) → rounds c t ≡ 0 → c ≡ t
unfolding rounds
rounds_zero (pos c) (pos t) h = ground arith
rounds_zero (pos c) (negsuc t) h = ground arith
rounds_zero (negsuc c) (pos t) h = ground arith
rounds_zero (negsuc c) (negsuc t) h = ground arith

-- What a safe step asks of the command n after one cycle, with the command c before it and the target t.
pub record StepsSafely (c t n : ℤ) : Type 0 where
  pub between : ((c ≤ℤ n) × (n ≤ℤ t)) ⊎ ((t ≤ℤ n) × (n ≤ℤ c))
  pub growth : abs n ≤ℤ abs c +ℤ pos 250
  pub fall : c ≤ℤ n +ℤ pos 1000
  pub rise : n ≤ℤ c +ℤ pos 1000
  pub forward_stops : pos 1 ≤ℤ c → pos 0 ≤ℤ n
  pub backward_stops : c ≤ℤ negsuc 0 → n ≤ℤ pos 0

-- One cycle of the signed command with the limiter's limits of 250 up and 1000 down is a safe step for
-- every command and target: between the two, no growth above 250, no change above 1000, and from one
-- sign to the other only over zero.
pub command_step-StepsSafely : (c t : ℤ) → StepsSafely c t (command_step c t)
unfolding next ◌+ℤ◌
command_step-StepsSafely (pos c) (pos t) = rw (step-pos-pos c t) (ground arith)
command_step-StepsSafely (pos zero) (negsuc t) = rw (step-zero-neg t) (ground arith)
command_step-StepsSafely (pos (suc c)) (negsuc t) = rw (step-pos-neg c t) (ground arith)
command_step-StepsSafely (negsuc c) (pos t) = rw (step-neg-pos c t) (ground arith)
command_step-StepsSafely (negsuc c) (negsuc t) = rw (step-neg-neg c t) (ground arith)
