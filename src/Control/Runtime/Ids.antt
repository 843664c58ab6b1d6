-- ===== src/Control/Runtime/Ids.antt =====
-- The command ids of src/backend/control/ControlRuntime.cpp over its calls, and those of the worker in
-- src/backend/control/ControlCycleRuntime.cpp.
use vsm_field_workstation.Prelude.{
  ℕ, zero, suc, ◌+◌, ◌%◌, ◌^◌, ◌≤◌, ◌<◌, ◌≡◌, refl, sym, ap, ◌∙◌, ◌≢◌, inl, inr, List, [], ◌∷◌,
  ◌++◌, arith, length, length-append, All, subst,
}
use vsm_field_workstation.Foreign.{Doubles}
use vsm_field_workstation.Control.Runtime.{
  ControlRuntime, new_runtime, take_command_id, set_armed, set_test_running, set_target_bus,
  set_target_rpm, set_target_steering_deg, set_current_intent, set_status_text,
  set_last_command_summary, set_last_heartbeat_wall_ms, set_last_lease_renew_wall_ms,
  set_last_burst_wall_ms, clear_burst_wall_ms, reset_pattern_state, take_alive_counter, Call, step,
  sets_armed, sets_test_running, sets_target_bus, sets_target_rpm, sets_target_steering_deg,
  sets_current_intent, sets_status_text, sets_last_command_summary, sets_last_heartbeat_wall_ms,
  sets_last_lease_renew_wall_ms, sets_last_burst_wall_ms, clears_burst_wall_ms,
  resets_pattern_state, takes_command_id, takes_alive_counter,
}
use vsm_field_workstation.Control.Cycle
use vsm_field_workstation.Control.Cycle.Ids.{next_command_id-range}

module _ (d : Doubles) where
  -- The ids that a call, and a run of calls, gives out.
  abbrev pub id_of : Call d → ControlRuntime d → List ℕ
  id_of takes_command_id r = (take_command_id d r).0 ∷ []
  id_of (sets_armed b) r = []
  id_of (sets_test_running b) r = []
  id_of (sets_target_bus bus manual) r = []
  id_of (sets_target_rpm rpm) r = []
  id_of (sets_target_steering_deg deg) r = []
  id_of (sets_current_intent command rpm deg motor driving) r = []
  id_of (sets_status_text text) r = []
  id_of (sets_last_command_summary text) r = []
  id_of (sets_last_heartbeat_wall_ms t) r = []
  id_of (sets_last_lease_renew_wall_ms t) r = []
  id_of (sets_last_burst_wall_ms t) r = []
  id_of clears_burst_wall_ms r = []
  id_of resets_pattern_state r = []
  id_of takes_alive_counter r = []

  abbrev pub ids : List (Call d) → ControlRuntime d → List ℕ
  ids [] r = []
  ids (c ∷ cs) r = id_of c r ++ ids cs (step d c r)

  -- The numbers from `first` on.
  abbrev pub count_from : ℕ → ℕ → List ℕ
  count_from first zero = []
  count_from first (suc n) = first ∷ count_from (suc first) n

  abbrev Counts : Call d → ControlRuntime d → Type 0
  Counts c r =
      ((step d c r).command_counter ≡ r.command_counter + length (id_of c r))
      × (id_of c r ≡ count_from (suc r.command_counter) (length (id_of c r)))

  untouched :
      (r q : ControlRuntime d)
      → q.command_counter ≡ r.command_counter
      → q.command_counter ≡ r.command_counter + 0
  untouched r q e = omega (arith, e)

  step-Counts :
      (c : Call d) (r : ControlRuntime d)
      → r.command_counter + length (id_of c r) < 2 ^ 32
      → Counts c r
  unfolding step set_armed set_test_running set_target_bus set_target_rpm set_target_steering_deg
      set_current_intent set_status_text set_last_command_summary set_last_heartbeat_wall_ms
      set_last_lease_renew_wall_ms set_last_burst_wall_ms clear_burst_wall_ms reset_pattern_state
      take_command_id take_alive_counter
  step-Counts takes_command_id r h =
      let next : (r.command_counter + 1) % 2 ^ 32 ≡ suc r.command_counter = omega arith in
      (next ∙ omega arith, ap (λ n. n ∷ []) next)
  step-Counts (sets_armed b) r h = (omega arith, refl)
  step-Counts (sets_test_running b) r h = (omega arith, refl)
  step-Counts (sets_target_bus bus manual) r h = (omega arith, refl)
  step-Counts (sets_target_rpm rpm) r h = (omega arith, refl)
  step-Counts (sets_target_steering_deg deg) r h = (omega arith, refl)
  step-Counts (sets_current_intent command rpm deg motor driving) r h = (omega arith, refl)
  step-Counts (sets_status_text text) r h =
      (untouched r (set_status_text d text r) (ground arith), refl)
  step-Counts (sets_last_command_summary text) r h = (omega arith, refl)
  step-Counts (sets_last_heartbeat_wall_ms t) r h = (omega arith, refl)
  step-Counts (sets_last_lease_renew_wall_ms t) r h = (omega arith, refl)
  step-Counts (sets_last_burst_wall_ms t) r h = (omega arith, refl)
  step-Counts clears_burst_wall_ms r h = (omega arith, refl)
  step-Counts resets_pattern_state r h = (omega arith, refl)
  step-Counts takes_alive_counter r h = (omega arith, refl)

  -- Counting on.
  count_from-append :
      (first m n later total : ℕ)
      → later ≡ first + m
      → total ≡ m + n
      → count_from first m ++ count_from later n ≡ count_from first total
  count_from-append first zero n later total l t =
      let same_start : later ≡ first = omega arith in
      let same_size : total ≡ n = omega arith in rw (same_start, same_size) refl
  count_from-append first (suc m) n later zero l t = absurd (omega arith)
  count_from-append first (suc m) n later (suc total) l t =
      ap (λ xs. first ∷ xs)
        (count_from-append (suc first) m n later total (omega arith) (omega arith))

  ids-numbered :
      (cs : List (Call d)) (r : ControlRuntime d)
      → r.command_counter + length (ids cs r) < 2 ^ 32
      → ids cs r ≡ count_from (suc r.command_counter) (length (ids cs r))
  ids-numbered [] r h = refl
  ids-numbered (c ∷ cs) r h =
      let here = length (id_of c r) in
      let later = length (ids cs (step d c r)) in
      let total : length (id_of c r ++ ids cs (step d c r)) ≡ here + later =
        length-append (id_of c r) (ids cs (step d c r)) in
      let (counter, listed) = step-Counts c r (omega (arith, total)) in
      ap (λ xs. xs ++ ids cs (step d c r)) listed
      ∙ ap (λ xs. count_from (suc r.command_counter) here ++ xs)
          (ids-numbered cs (step d c r) (omega (arith, total, counter))
            ∙ ap (λ k. count_from (suc k) later) counter)
      ∙ count_from-append (suc r.command_counter) here later (suc (r.command_counter + here))
          (length (ids (c ∷ cs) r)) (omega arith) total

  abbrev pub IsApart : ℕ → ℕ → Type 0
  IsApart worker id = (0 < id) × (id ≢ vsm_field_workstation.Control.Cycle.next_command_id worker)

  IsApart-count_from :
      (first n worker : ℕ)
      → 0 < first
      → first + n ≤ 2 ^ 31
      → worker < 2 ^ 32
      → All (IsApart worker) (count_from first n)
  IsApart-count_from first zero worker low high w = tt
  IsApart-count_from first (suc n) worker low high w = (
    (
      low,
      λ e. elim (next_command_id-range worker w) [
        | inl (inside, (above, below)) ↦ absurd (omega (arith, e))
        | inr (last, nothing) ↦ absurd (omega (arith, e))
      ],
    ),
    IsApart-count_from (suc first) n worker (omega arith) (omega arith) w,
  )

  -- From a new object, over any calls that give out fewer than 2^31 command ids, the ids are 1, 2, 3 and
  -- so on, and none of them is an id that the worker gives out, whatever its counter.
  pub ids-IsApart :
      (cs : List (Call d)) (worker : ℕ)
      → length (ids cs (new_runtime d)) < 2 ^ 31
      → worker < 2 ^ 32
      → (ids cs (new_runtime d) ≡ count_from 1 (length (ids cs (new_runtime d))))
        × All (IsApart worker) (ids cs (new_runtime d))
  ids-IsApart cs worker few w =
      let numbered = ids-numbered cs (new_runtime d) (omega arith) in
      (
        numbered,
        subst (λ xs. All (IsApart worker) xs) (sym numbered)
            (IsApart-count_from 1 (length (ids cs (new_runtime d))) worker (omega arith)
              (omega arith) w),
      )
