-- ===== src/Alarm.antt =====
-- The alarms of values and the level of a page: src/backend/AlarmManager.h, AlarmManager.cpp,
-- LevelState.h, LevelState.cpp and the types of src/backend/AnalysisTypes.h. The arguments that a call
-- changes are two records: those of one CAN id, and those that all ids share. A gauge is a double, a
-- parameter of the model. A row of a list model is a record of the entries that are read, the entry named
-- by `textField` among them.
pub mod Groups
pub mod Shown
pub mod Worst
mod Tests
use Prim.Native.String.{String}
use vsm_field_workstation.Prelude.{
  ℕ, suc, ◌+◌, Bool, true, false, not, ◌&&◌, ◌||◌, Option, none, some, List, [], ◌∷◌, ◌++◌, ltb,
  if◌then◌else◌, length, take, ◌is◌,
}
use vsm_field_workstation.Prelude.Int.{ℤ, eq_ℤ}
use vsm_field_workstation.Foreign.{Qt}
use vsm_field_workstation.HostTx.{is_blank, is_empty}

unfoldable pub severity_color : String → String
severity_color severity =
    if severity is "ERR"
    then "#c0392b"
    else if severity is "WARN"
    then "#d97706"
    else if severity is "OK"
    then "#118a42"
    else if severity is "복구"
    then "#2563eb"
    else if severity is "해제"
    then "#94a3b8"
    else if severity is "미수신"
    then "#6b7280"
    else "#52606d"

unfoldable pub severity_rank : String → ℕ
severity_rank severity =
    if severity is "ERR"
    then 4
    else if severity is "WARN"
    then 3
    else if severity is "OK"
    then 2
    else if severity is "미수신"
    then 1
    else 0

-- LevelState::rankForLevel and LevelState::colorForLevel.
unfoldable pub rank_for_level : String → ℕ
rank_for_level level =
    if level is "ERR"
    then 4
    else if level is "WARN"
    then 3
    else if level is "OK"
    then 2
    else if level is "NONE"
    then 1
    else 0

unfoldable pub color_for_level : String → String
color_for_level level =
    if level is "ERR"
    then "#c0392b"
    else if level is "WARN"
    then "#d97706"
    else if level is "OK"
    then "#118a42"
    else "#94a3b8"

pub record LevelSummary : Type 0 where
  pub level : String
  pub color : String
  pub active_count : ℕ
  pub summary : String

abbrev pub new_summary : LevelSummary
new_summary = record { level = "NONE"; color = "#94a3b8"; active_count = 0; summary = "표시 항목 없음" }

-- The loop of merge: the best rank so far, none before the first, and its summary.
unfoldable pub best_of : Option LevelSummary → List LevelSummary → Option LevelSummary
unfolding rank_for_level
best_of best [] = best
best_of none (s ∷ rest) = best_of (some s) rest
best_of (some b) (s ∷ rest) =
    best_of (some (if ltb (rank_for_level b.level) (rank_for_level s.level) then s else b)) rest

unfoldable pub merge : LevelSummary → LevelSummary → LevelSummary → LevelSummary
unfolding best_of color_for_level
merge timing value alarm =
    let count = timing.active_count + value.active_count + alarm.active_count in
    elim (best_of none (timing ∷ value ∷ alarm ∷ [])) [
      | none ↦ record new_summary { active_count = count }
      | some best ↦ record {
        level = best.level;
        color = color_for_level best.level;
        active_count = count;
        summary = best.summary;
      }
    ]

pub record ModelRow : Type 0 where
  pub severity : String
  pub active : Bool
  pub id_text : String
  pub text : String

unfoldable pub is_issue : ModelRow → Bool
is_issue row = row.active || ((row.severity is "WARN") || (row.severity is "ERR"))

-- The locals of fromModel.
pub record Reading : Type 0 where
  pub active_count : ℕ
  pub has_warn : Bool
  pub has_err : Bool
  pub lines : List String

-- `arg_three` is QString::arg of three texts, `join_list` is QStringList::join.
module _ (qt : Qt) (arg_three : String → String → String → String → String)
    (join_list : List String → String → String) where
  unfoldable pub row_line : ModelRow → String
  row_line row =
      let sev_part = if is_blank row.severity then "" else qt.arg "[%1] " row.severity in
      qt.trimmed (arg_three "%1%2 %3" sev_part row.id_text (qt.trimmed row.text))

  unfoldable pub read_row : ModelRow → Reading → Reading
  unfolding is_issue row_line
  read_row row r =
      if is_issue row
      then record {
        active_count = r.active_count + 1;
        has_warn = r.has_warn || (row.severity is "WARN");
        has_err = r.has_err || (row.severity is "ERR");
        lines = if ltb (length r.lines) 3 then r.lines ++ (row_line row ∷ []) else r.lines;
      }
      else r

  unfoldable pub read_rows : List ModelRow → Reading → Reading
  unfolding read_row
  read_rows [] r = r
  read_rows (row ∷ rows) r = read_rows rows (read_row row r)

  abbrev pub new_reading : Reading
  new_reading = record { active_count = 0; has_warn = false; has_err = false; lines = [] }

  unfoldable pub from_model : List ModelRow → LevelSummary
  unfolding read_rows color_for_level
  from_model rows =
      let r = read_rows rows new_reading in
      let level =
        if r.has_err
        then "ERR"
        else if r.has_warn
        then "WARN"
        else if is_empty rows
        then "NONE"
        else "OK" in
      record {
        level = level;
        color = color_for_level level;
        active_count = r.active_count;
        summary = if is_empty r.lines then "표시 항목 없음" else join_list r.lines "\n";
      }

module _ (Double : Type 0) where
  pub record ValueAlarmResult : Type 0 where
    pub active : Bool
    pub severity : String
    pub message : String
    pub metric_text : String
    pub gauge_pct : Double
    pub alarm_key : String
    pub category : String

  pub record AlarmGroup : Type 0 where
    pub sequence : ℕ
    pub key : String
    pub id : ℕ
    pub time_text : String
    pub severity : String
    pub severity_color : String
    pub name : String
    pub source : String
    pub message : String
    pub severity_rank : ℕ
    pub active : Bool
    pub update_count : ℕ
    pub category : String
    pub metric_text : String
    pub gauge_pct : Double
    pub history : List String

  -- The arguments of one CAN id.
  pub record Tracker : Type 0 where
    pub active_value_alarm_key : String
    pub last_value_alarm_seen_ms : ℤ

  -- The arguments that all CAN ids share.
  pub record Board : Type 0 where
    pub groups : List AlarmGroup
    pub alarm_sequence : ℕ
    pub rows_dirty : Bool

  unfoldable pub has_group : String → List AlarmGroup → Bool
  has_group key [] = false
  has_group key (g ∷ gs) = (g.key is key) || has_group key gs

  -- The loop of resolveValueAlarm over the groups.
  unfoldable pub remove_group : String → List AlarmGroup → List AlarmGroup
  remove_group key [] = []
  remove_group key (g ∷ gs) =
      let rest = remove_group key gs in if g.key is key then gs else g ∷ rest

  unfoldable pub resolve_value_alarm : Tracker → Board → Tracker × Board
  unfolding has_group remove_group
  resolve_value_alarm t b =
      let key = t.active_value_alarm_key in
      if is_blank key then (t, b) else (
        record t { active_value_alarm_key = "" },
        record b {
          groups = remove_group key b.groups;
          rows_dirty = has_group key b.groups || b.rows_dirty;
        },
      )

  -- `while (groups.size() > 120) groups.removeFirst();`
  unfoldable pub trimmed_groups : List AlarmGroup → List AlarmGroup
  trimmed_groups [] = []
  trimmed_groups (g ∷ gs) =
      let fewer = trimmed_groups gs in if ltb 120 (suc (length gs)) then fewer else g ∷ gs

  -- `while (history.size() > 32) history.removeLast();`
  unfoldable pub trimmed_history : List String → List String
  trimmed_history history = take 32 history

  -- `arg_two` is QString::arg of two texts.
  module _ (qt : Qt) (arg_two : String → String → String → String) where
    unfoldable pub now_text : String → String
    now_text time_text = if is_blank (qt.trimmed time_text) then "-" else qt.trimmed time_text

    unfoldable pub fresh_group : ℕ → ℕ → ValueAlarmResult → String → String → String → AlarmGroup
    unfolding now_text
    fresh_group sequence id info name source time_text = record {
      sequence = sequence;
      key = info.alarm_key;
      id = id;
      time_text = now_text time_text;
      severity = info.severity;
      severity_color = severity_color info.severity;
      name = name;
      source = source;
      message = info.message;
      severity_rank = severity_rank info.severity;
      active = true;
      update_count = 1;
      category = "value";
      metric_text = info.metric_text;
      gauge_pct = info.gauge_pct;
      history = arg_two "[%1] %2" (now_text time_text) info.message ∷ [];
    }

    unfoldable pub is_news : ValueAlarmResult → AlarmGroup → Bool
    is_news info g = not (g.message is info.message) || (not g.active || (g.severity is "해제"))

    unfoldable pub updated_group :
        Bool → ValueAlarmResult → String → String → String → AlarmGroup → AlarmGroup
    unfolding is_news now_text trimmed_history
    updated_group frame_advanced info name source time_text g =
        let line = arg_two "[%1] %2" (now_text time_text) info.message in
        record g {
          active = true;
          category = "value";
          severity = info.severity;
          severity_color = severity_color info.severity;
          name = name;
          source = source;
          metric_text = info.metric_text;
          gauge_pct = info.gauge_pct;
          severity_rank = severity_rank info.severity;
          update_count = if frame_advanced then g.update_count + 1 else g.update_count;
          message = if is_news info g then info.message else g.message;
          history = trimmed_history (if is_news info g then line ∷ g.history else g.history);
        }

    -- The group that `group` points to is the first one of the key.
    unfoldable pub update_group :
        Bool → ValueAlarmResult → String → String → String → List AlarmGroup → List AlarmGroup
    unfolding updated_group
    update_group frame_advanced info name source time_text [] = []
    update_group frame_advanced info name source time_text (g ∷ gs) =
        let rest = update_group frame_advanced info name source time_text gs in
        if g.key is info.alarm_key
        then updated_group frame_advanced info name source time_text g ∷ gs
        else g ∷ rest

    unfoldable pub group_news : ValueAlarmResult → List AlarmGroup → Bool
    unfolding is_news
    group_news info [] = false
    group_news info (g ∷ gs) =
        let later = group_news info gs in if g.key is info.alarm_key then is_news info g else later

    -- Before the search: the group of another key is resolved.
    unfoldable pub leave_other : ValueAlarmResult → Tracker → Board → Board
    unfolding resolve_value_alarm
    leave_other info t b =
        if not (is_blank t.active_value_alarm_key)
          && not (t.active_value_alarm_key is info.alarm_key)
        then (resolve_value_alarm t b).1
        else b

    unfoldable pub show_alarm :
        ℕ → Bool → ValueAlarmResult → String → String → String → Board → Board
    unfolding has_group fresh_group trimmed_groups update_group group_news
    show_alarm id frame_advanced info name source time_text b =
        if has_group info.alarm_key b.groups
        then record b {
          groups = update_group frame_advanced info name source time_text b.groups;
          rows_dirty = frame_advanced || (group_news info b.groups || b.rows_dirty);
        }
        else record {
          groups =
              trimmed_groups (
                b.groups
                ++ (fresh_group (b.alarm_sequence + 1) id info name source time_text ∷ []));
          alarm_sequence = b.alarm_sequence + 1;
          rows_dirty = true;
        }

    unfoldable pub sync_value_alarm :
        ℕ → ValueAlarmResult → String → String → String → ℤ → Tracker → Board → Tracker × Board
    unfolding leave_other show_alarm
    sync_value_alarm id info name source time_text frame_seen_ms t b =
        let frame_advanced = not (eq_ℤ t.last_value_alarm_seen_ms frame_seen_ms) in
        (
          record {
            active_value_alarm_key = info.alarm_key;
            last_value_alarm_seen_ms = frame_seen_ms;
          },
          show_alarm id frame_advanced info name source time_text (leave_other info t b),
        )
