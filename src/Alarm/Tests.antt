-- ===== src/Alarm/Tests.antt =====
-- Examples of the alarms and of the level of a page.
use Prim.Native.String.{String}
use vsm_field_workstation.Prelude.{
  ℕ, ◌+◌, ◌≤◌, ◌<◌, ◌≡◌, ◌⊎◌, refl, true, false, List, [], ◌∷◌, ◌is◌,
}
use vsm_field_workstation.Prelude.Int.{pos}
use vsm_field_workstation.Foreign.Samples.{plain_text}
use vsm_field_workstation.HostTx.{is_blank}
use vsm_field_workstation.Alarm.{
  LevelSummary, new_summary, ValueAlarmResult, Tracker, Board, has_group, sync_value_alarm, merge,
}
use vsm_field_workstation.Alarm.Groups.{IsValid}
use vsm_field_workstation.Alarm.Shown.{
  Call, resolves, syncs, run, new_board, run-new_board-IsValid, Shown, sync_value_alarm-Shown,
}
use vsm_field_workstation.Alarm.Worst.{Shows, rank, merge-Shows}

-- A text of two arguments, which keeps the second.
abbrev second : String → String → String → String
second s a b = b

abbrev hot : ValueAlarmResult ℕ
hot = record {
  active = true;
  severity = "ERR";
  message = "temperature 90";
  metric_text = "90";
  gauge_pct = 100;
  alarm_key = "1296:temperature";
  category = "value";
}

abbrev warm : ValueAlarmResult ℕ
warm = record hot { severity = "WARN"; message = "temperature 70"; alarm_key = "1296:warm" }

abbrev idle : Tracker ℕ
idle = record { active_value_alarm_key = ""; last_value_alarm_seen_ms = pos 0 }

abbrev alarmed : Tracker ℕ
alarmed = record { active_value_alarm_key = "1296:warm"; last_value_alarm_seen_ms = pos 5 }

abbrev calls : List (Call ℕ plain_text second)
calls =
    syncs 1296 warm "battery" "board" "12:00:00" (pos 5) idle
    ∷ syncs 1296 hot "battery" "board" "12:00:01" (pos 6) alarmed
    ∷ resolves idle
    ∷ []

run-new_board-IsValid_example :
    IsValid ℕ (run ℕ plain_text second calls (new_board ℕ plain_text second)).groups
run-new_board-IsValid_example = run-new_board-IsValid ℕ plain_text second calls

-- One group, of the warning.
abbrev warned : Board ℕ
warned = record {
  groups =
      record {
        sequence = 1;
        key = "1296:warm";
        id = 1296;
        time_text = "12:00:00";
        severity = "WARN";
        severity_color = "#d97706";
        name = "battery";
        source = "board";
        message = "temperature 70";
        severity_rank = 3;
        active = true;
        update_count = 1;
        category = "value";
        metric_text = "70";
        gauge_pct = 80;
        history = [];
      }
      ∷ [];
  alarm_sequence = 1;
  rows_dirty = false;
}

sync_value_alarm-Shown_example :
    Shown ℕ plain_text second hot
      (sync_value_alarm ℕ plain_text second 1296 hot "battery" "board" "12:00:01"
        (pos 6)
        alarmed
        warned).1.groups
    × ((is_blank alarmed.active_value_alarm_key ≡ true)
        ⊎ (((alarmed.active_value_alarm_key is hot.alarm_key) ≡ true)
            ⊎ (has_group ℕ alarmed.active_value_alarm_key
                  (sync_value_alarm ℕ plain_text second 1296 hot "battery" "board" "12:00:01"
                    (pos 6)
                    alarmed
                    warned).1.groups
                ≡ false)))
unfolding has_group
sync_value_alarm-Shown_example =
    sync_value_alarm-Shown ℕ plain_text second 1296 hot "battery" "board" "12:00:01" (pos 6) alarmed
      warned (refl, tt)

abbrev late : LevelSummary
late = record new_summary { level = "WARN"; active_count = 2; summary = "late" }

merge-Shows_example :
    ((merge late new_summary late).active_count
      ≡ late.active_count + new_summary.active_count + late.active_count)
    × ((Shows late (merge late new_summary late)
          × ((rank new_summary ≤ rank late) × (rank late ≤ rank late)))
        ⊎ ((Shows new_summary (merge late new_summary late)
              × ((rank late < rank new_summary) × (rank late ≤ rank new_summary)))
            ⊎ (Shows late (merge late new_summary late)
                × ((rank late < rank late) × (rank new_summary < rank late)))))
merge-Shows_example = merge-Shows late new_summary late
