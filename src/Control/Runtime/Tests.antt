-- ===== src/Control/Runtime/Tests.antt =====
-- Examples of the operator's commands.
use vsm_field_workstation.Prelude.{◌≡◌, refl, true, List, [], ◌∷◌, arith, length, All}
use vsm_field_workstation.Prelude.Int.{pos, negsuc}
use vsm_field_workstation.Foreign.Samples.{plain_text, fixed}
use vsm_field_workstation.Evidence.Board.{initial}
use vsm_field_workstation.Control.Audit.{reset, actual_tx_confirmed}
use vsm_field_workstation.Control.Runtime.{
  new_runtime, Call, sets_target_bus, sets_target_rpm, sets_target_steering_deg,
  sets_current_intent, sets_armed, takes_command_id, run, action_verdict, operator_checklist,
}
use vsm_field_workstation.Control.Runtime.Verdict.{
  first_blocking, gates, verdict_for, action_verdict-operator_checklist,
}
use vsm_field_workstation.Control.Runtime.Range.{
  IsInRange, BoundsOrdered, run-new_runtime-IsInRange,
}
use vsm_field_workstation.Control.Runtime.Ids.{ids, count_from, IsApart, ids-IsApart}

abbrev calls : List (Call fixed)
calls =
    sets_armed true
    ∷ sets_target_bus (pos 300) true
    ∷ sets_target_rpm (negsuc 4)
    ∷ sets_target_steering_deg (pos 95000)
    ∷ sets_current_intent (pos 20000) (pos 100) (negsuc 99999) 2 1
    ∷ takes_command_id
    ∷ takes_command_id
    ∷ []

fixed-BoundsOrdered : BoundsOrdered fixed
fixed-BoundsOrdered = record {
  low_low = refl;
  high_high = refl;
  high_low = refl;
  zero_low = refl;
  high_zero = refl;
}

run-new_runtime-IsInRange_example : IsInRange fixed (run fixed calls (new_runtime fixed))
run-new_runtime-IsInRange_example = run-new_runtime-IsInRange fixed fixed-BoundsOrdered calls

ids-IsApart_example :
    (ids fixed calls (new_runtime fixed)
      ≡ count_from fixed 1 (length (ids fixed calls (new_runtime fixed))))
    × All (IsApart fixed 2147483648) (ids fixed calls (new_runtime fixed))
ids-IsApart_example = ids-IsApart fixed calls 2147483648 (omega arith) (omega arith)

action_verdict-operator_checklist_example :
    action_verdict fixed plain_text (gates "typed" true true "" initial reset) (new_runtime fixed)
    ≡ verdict_for fixed plain_text "" (actual_tx_confirmed reset) (new_runtime fixed) (
        first_blocking (
          operator_checklist fixed plain_text
            (gates "typed" true true "" initial reset)
            (new_runtime fixed)))
action_verdict-operator_checklist_example =
    action_verdict-operator_checklist fixed plain_text "typed" true true "" initial reset
      (new_runtime fixed)
