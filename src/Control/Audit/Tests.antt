-- ===== src/Control/Audit/Tests.antt =====
-- Examples of the audit of the operator's commands.
use vsm_field_workstation.Prelude.{◌≡◌, true, false, List, [], ◌∷◌, ◌++◌}
use vsm_field_workstation.Foreign.Samples.{plain_text}
use vsm_field_workstation.Control.Audit.{
  Event, Call, remembers, takes, appends, notes_ack, reset, run, waiting, actual_tx_confirmed,
  fault_active,
}
use vsm_field_workstation.Control.Audit.Acks.{all_accepted, all_gone, run-reset_acks}
use vsm_field_workstation.Control.Audit.Rows.{newest, journal, run-reset_rows}
use vsm_field_workstation.Control.Audit.Levels.{over, confirmed, faulted, run-reset_levels}

-- The transmission of the command 26 on the id 0x503 is audited.
abbrev audited : Event
audited = record {
  stage = "CAN_TX_RAW";
  level = "ok";
  summary = "sent";
  detail = "";
  command_id = 26;
  can_id = 1283;
  bus = 1;
  time_text = "12:00:00.000";
}

abbrev refused : Event
refused = record audited { stage = "BLOCKED"; level = "error"; command_id = 0 }

-- Two commands are accepted, the first is audited, and a third is refused.
abbrev calls : List Call
calls =
    notes_ack true
    ∷ remembers 1283 26
    ∷ remembers 1283 27
    ∷ remembers 1296 28
    ∷ takes 1283
    ∷ appends audited
    ∷ appends refused
    ∷ []

run-reset_acks_example :
    all_accepted 1283 calls
    ≡ all_gone plain_text 1283 calls reset ++ waiting 1283 (run plain_text calls reset)
run-reset_acks_example = run-reset_acks plain_text 1283 calls

run-reset_rows_example :
    ((run plain_text calls reset).model_rows ≡ newest 80 (journal plain_text calls []))
    × ((run plain_text calls reset).rows ≡ newest 80 (journal plain_text calls []))
run-reset_rows_example = run-reset_rows plain_text calls

run-reset_levels_example :
    (actual_tx_confirmed (run plain_text calls reset) ≡ over confirmed calls false)
    × (fault_active (run plain_text calls reset) ≡ over faulted calls false)
run-reset_levels_example = run-reset_levels plain_text calls
