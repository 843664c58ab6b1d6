-- ===== src/Evidence/Tests.antt =====
-- Examples of the gate on concrete histories.
use vsm_field_workstation.Prelude.{find, ◌≡◌, ◌↔◌, true, List, [], ◌∷◌}
use vsm_field_workstation.Prelude.{refl, false, ◌≢◌, inl, none, arith}
use vsm_field_workstation.Foreign.Samples.{plain_text}
use vsm_field_workstation.Evidence.BusRole.{
  BusRoleResolver, contains, set_operator_override, observed_ids, is_match, matches,
  match_resolution, observed_resolution, first_resolution, resolve, tx_allowed,
}
use vsm_field_workstation.Evidence.BusRole.Priority.{
  IsGranted, tx_allowed-IsGranted, resolve-set_operator_override,
}
use vsm_field_workstation.Typed.Records.{TypedCapabilityRecord, TypedBoardHealthRecord}
use vsm_field_workstation.Evidence.Board.{
  Call, no_capability, no_health, initial, after, control_capable, compute_snapshot,
}
use vsm_field_workstation.Evidence.Board.Reason.{reason-control_capable}
use vsm_field_workstation.Evidence.Board.Gate.{Earned, control_capable-Earned}

abbrev capability : TypedCapabilityRecord
capability = record no_capability {
  protocol_version = 1;
  supports_board_health = true;
  supports_can_tx_raw = true;
}

abbrev health : TypedBoardHealthRecord
health = record no_health { mono_us = 1500000; safety_state = 2 }

-- The newest call stands first.
abbrev calls : List Call
calls =
    Call.advances_wall_time_ms 2000
    ∷ Call.ingests_board_health health 1000
    ∷ Call.ingests_capability capability 900
    ∷ Call.sets_serial_open true
    ∷ []

control_capable-Earned_example : (control_capable (after calls) ≡ true) ↔ Earned calls
control_capable-Earned_example = control_capable-Earned calls

reason-control_capable_example :
    ((compute_snapshot initial).control_capable ≡ true)
    ↔ ((compute_snapshot initial).reason ≡ "board alive")
reason-control_capable_example = reason-control_capable initial

-- A rule for vehicle buses that show 0x510, seen on bus 1, and a role that the board gave to bus 0.
abbrev resolver : BusRoleResolver
resolver = record {
  model_rules =
      record { role = "vehicle"; fingerprints = 0x510 ∷ 0x512 ∷ []; tx_allowed = true } ∷ [];
  capability_roles = (0, record { role = "monitor"; tx_allowed = false }) ∷ [];
  operator_overrides = [];
  observed_ids_by_bus = (1, 0x100 ∷ 0x512 ∷ []) ∷ [];
}

vehicle_may_transmit : tx_allowed 1 resolver ≡ true
unfolding tx_allowed resolve first_resolution observed_resolution match_resolution observed_ids
    matches is_match contains find
vehicle_may_transmit = refl

monitor_is_set : find 0 resolver.capability_roles ≢ none
unfolding find
monitor_is_set = λ e. ground (arith, e)

tx_allowed-IsGranted_example : IsGranted 1 resolver
tx_allowed-IsGranted_example = tx_allowed-IsGranted 1 resolver vehicle_may_transmit

resolve-set_operator_override_example :
    resolve 0 (set_operator_override plain_text 0 "vehicle" true resolver) ≡ resolve 0 resolver
resolve-set_operator_override_example =
    resolve-set_operator_override plain_text 0 0 "vehicle" true resolver (inl monitor_is_set)
