-- ===== src/Control/Runtime.antt =====
-- The operator's commands: src/backend/control/ControlRuntime.h and ControlRuntime.cpp. An `int` is an
-- integer, a wall time is a number; the bus and the rpm of a target are not negative. The eight arguments that actionVerdict and operatorChecklist share
-- are a record, and a row of the checklist is a record of its entries.
pub mod Verdict
pub mod Range
pub mod Ids
mod Tests
use Prim.Native.String.{String}
use vsm_field_workstation.Prelude.{
  ℕ, ◌+◌, ◌%◌, ◌^◌, Bool, true, false, not, ◌&&◌, List, [], ◌∷◌, ◌++◌, ◌==◌, if◌then◌else◌, add_u,
  ◌is◌,
}
use vsm_field_workstation.Prelude.Int.{ℤ, pos, negsuc, pos_part, clamp}
use vsm_field_workstation.Foreign.{Qt, Doubles}
use vsm_field_workstation.HostTx.{is_blank}

pub record Gates : Type 0 where
  pub transport_mode : String
  pub connected : Bool
  pub board_alive : Bool
  pub control_capable : Bool
  pub target_bus_allowed : Bool
  pub actual_tx_confirmed : Bool
  pub fault_active : Bool
  pub block_reason : String

pub record ChecklistRow : Type 0 where
  pub key : String
  pub title : String
  pub level : String
  pub state : String
  pub detail : String
  pub ok : Bool
  pub blocking : Bool

unfoldable pub next_command_id : ℕ → ℕ × ℕ
next_command_id command_counter = (add_u 32 command_counter 1, add_u 32 command_counter 1)

unfoldable pub next_alive_counter : ℕ → ℕ × ℕ
next_alive_counter alive_counter = (alive_counter, add_u 8 alive_counter 1)

unfoldable pub pick : Bool → String → String → String
pick b yes_ no_ = if b then yes_ else no_

module _ (d : Doubles) where
  open d use {Double, milli, lt}

  pub record ControlTarget : Type 0 where
    pub bus : ℤ
    pub rpm : ℤ
    pub steering_deg : Double

  pub record ControlCommandIntent : Type 0 where
    pub signed_command : ℤ
    pub rpm : ℤ
    pub steering_deg : Double
    pub motor_mode : ℕ
    pub driving_mode : ℕ

  pub record ControlRuntime : Type 0 where
    pub armed : Bool
    pub test_running : Bool
    pub target : ControlTarget
    pub target_bus_manual_override : Bool
    pub current_intent : ControlCommandIntent
    pub alive_counter : ℕ
    pub command_counter : ℕ
    pub last_heartbeat_wall_ms : ℕ
    pub last_lease_renew_wall_ms : ℕ
    pub last_burst_wall_ms : ℕ
    pub status_text : String
    pub last_command_summary : String

  unfoldable pub set_armed : Bool → ControlRuntime → ControlRuntime
  set_armed armed r = record r { armed = armed }

  unfoldable pub set_test_running : Bool → ControlRuntime → ControlRuntime
  set_test_running running r = record r { test_running = running }

  unfoldable pub set_target_bus : ℤ → Bool → ControlRuntime → ControlRuntime
  set_target_bus bus manual_override r = record r {
    target = record (r.target) { bus = clamp bus (pos 0) (pos 255) };
    target_bus_manual_override = if manual_override then true else r.target_bus_manual_override;
  }

  unfoldable pub set_target_rpm : ℤ → ControlRuntime → ControlRuntime
  set_target_rpm rpm r = record r {
    target = record (r.target) { rpm = clamp rpm (pos 0) (pos 10000) };
  }

  -- std::clamp(deg, -90.0, 90.0).
  unfoldable pub clamp_deg : Double → Double
  clamp_deg x =
      if lt x (milli (negsuc 89999))
      then milli (negsuc 89999)
      else if lt (milli (pos 90000)) x
      then milli (pos 90000)
      else x

  unfoldable pub set_target_steering_deg : Double → ControlRuntime → ControlRuntime
  unfolding clamp_deg
  set_target_steering_deg deg r = record r {
    target = record (r.target) { steering_deg = clamp_deg deg };
  }

  unfoldable pub set_current_intent : ℤ → ℤ → Double → ℕ → ℕ → ControlRuntime → ControlRuntime
  unfolding clamp_deg
  set_current_intent signed_command rpm steering_deg motor_mode driving_mode r = record r {
    current_intent = record {
      signed_command = clamp signed_command (negsuc 9999) (pos 10000);
      rpm = clamp rpm (pos 0) (pos 10000);
      steering_deg = clamp_deg steering_deg;
      motor_mode = if motor_mode == 2 then 2 else 1;
      driving_mode = driving_mode;
    };
  }

  unfoldable pub set_status_text : String → ControlRuntime → ControlRuntime
  set_status_text status r = if is_blank status then r else record r { status_text = status }

  unfoldable pub set_last_command_summary : String → ControlRuntime → ControlRuntime
  set_last_command_summary summary r = record r {
    last_command_summary = if is_blank summary then "-" else summary;
  }

  unfoldable pub set_last_heartbeat_wall_ms : ℕ → ControlRuntime → ControlRuntime
  set_last_heartbeat_wall_ms wall_ms r = record r { last_heartbeat_wall_ms = wall_ms }

  unfoldable pub set_last_lease_renew_wall_ms : ℕ → ControlRuntime → ControlRuntime
  set_last_lease_renew_wall_ms wall_ms r = record r { last_lease_renew_wall_ms = wall_ms }

  unfoldable pub set_last_burst_wall_ms : ℕ → ControlRuntime → ControlRuntime
  set_last_burst_wall_ms wall_ms r = record r { last_burst_wall_ms = wall_ms }

  unfoldable pub clear_burst_wall_ms : ControlRuntime → ControlRuntime
  clear_burst_wall_ms r = record r { last_burst_wall_ms = 0 }

  unfoldable pub reset_pattern_state : ControlRuntime → ControlRuntime
  unfolding clear_burst_wall_ms
  reset_pattern_state r = clear_burst_wall_ms (record r { test_running = false })

  unfoldable pub take_command_id : ControlRuntime → ℕ × ControlRuntime
  unfolding next_command_id
  take_command_id r =
      let (id, after) = next_command_id r.command_counter in
      (id, record r { command_counter = after })

  unfoldable pub take_alive_counter : ControlRuntime → ℕ × ControlRuntime
  unfolding next_alive_counter
  take_alive_counter r =
      let (alive, after) = next_alive_counter r.alive_counter in
      (alive, record r { alive_counter = after })

  -- A new object.
  abbrev pub new_runtime : ControlRuntime
  new_runtime = record {
    armed = false;
    test_running = false;
    target = record { bus = pos 1; rpm = pos 0; steering_deg = milli (pos 0) };
    target_bus_manual_override = false;
    current_intent = record {
      signed_command = pos 0;
      rpm = pos 0;
      steering_deg = milli (pos 0);
      motor_mode = 1;
      driving_mode = 1;
    };
    alive_counter = 0;
    command_counter = 0;
    last_heartbeat_wall_ms = 0;
    last_lease_renew_wall_ms = 0;
    last_burst_wall_ms = 0;
    status_text = "Control locked: typed stream + connect + arm required";
    last_command_summary = "-";
  }

  -- The calls that change the state.
  pub data Call : Type 0 where
    sets_armed : Bool → Call
    sets_test_running : Bool → Call
    sets_target_bus : ℤ → Bool → Call
    sets_target_rpm : ℤ → Call
    sets_target_steering_deg : Double → Call
    sets_current_intent : ℤ → ℤ → Double → ℕ → ℕ → Call
    sets_status_text : String → Call
    sets_last_command_summary : String → Call
    sets_last_heartbeat_wall_ms : ℕ → Call
    sets_last_lease_renew_wall_ms : ℕ → Call
    sets_last_burst_wall_ms : ℕ → Call
    clears_burst_wall_ms : Call
    resets_pattern_state : Call
    takes_command_id : Call
    takes_alive_counter : Call

  unfoldable pub step : Call → ControlRuntime → ControlRuntime
  step (sets_armed armed) r = set_armed armed r
  step (sets_test_running running) r = set_test_running running r
  step (sets_target_bus bus manual) r = set_target_bus bus manual r
  step (sets_target_rpm rpm) r = set_target_rpm rpm r
  step (sets_target_steering_deg deg) r = set_target_steering_deg deg r
  step (sets_current_intent command rpm deg motor driving) r =
      set_current_intent command rpm deg motor driving r
  step (sets_status_text text) r = set_status_text text r
  step (sets_last_command_summary text) r = set_last_command_summary text r
  step (sets_last_heartbeat_wall_ms t) r = set_last_heartbeat_wall_ms t r
  step (sets_last_lease_renew_wall_ms t) r = set_last_lease_renew_wall_ms t r
  step (sets_last_burst_wall_ms t) r = set_last_burst_wall_ms t r
  step clears_burst_wall_ms r = clear_burst_wall_ms r
  step resets_pattern_state r = reset_pattern_state r
  step takes_command_id r = (take_command_id r).1
  step takes_alive_counter r = (take_alive_counter r).1

  unfoldable pub run : List Call → ControlRuntime → ControlRuntime
  unfolding step
  run [] r = r
  run (c ∷ cs) r = run cs (step c r)

  -- `number_f1` is QString::number(x, 'f', 1), `join_list` is QStringList::join.
  module _ (qt : Qt) (number_f1 : Double → String) (join_list : List String → String → String) where
    unfoldable pub status_summary : String → Bool → Bool → String → ControlRuntime → String
    unfolding pick
    status_summary transport_mode connected evidence_ready evidence_block_reason r =
        let typed = transport_mode is "typed" in
        let first =
          pick r.armed "제어 ARM" "대기"
          ∷ pick r.test_running "테스트 실행 중" "수동"
          ∷ qt.arg_number "BUS %1" (pos_part r.target.bus)
          ∷ qt.arg_number "목표 rpm %1" (pos_part r.target.rpm)
          ∷ qt.arg "목표 조향 %1 deg" (number_f1 r.target.steering_deg)
          ∷ "출력 제한 조향/rpm slew 적용"
          ∷ [] in
        let mode = if not typed then "typed 모드 필요" ∷ [] else [] in
        let open_ = if not connected then "미연결" ∷ [] else [] in
        let gate =
          if typed && (connected && not evidence_ready)
          then qt.arg "보드 gate: %1" evidence_block_reason ∷ []
          else [] in
        let text = if not (is_blank r.status_text) then r.status_text ∷ [] else [] in
        join_list (first ++ (mode ++ (open_ ++ (gate ++ text)))) " | "

  module _ (qt : Qt) where
    unfoldable pub action_verdict : Gates → ControlRuntime → String
    unfolding pick
    action_verdict g r =
        if not (g.transport_mode is "typed")
        then "차단: typed evidence stream 필요"
        else if not g.connected
        then "차단: COM 연결 없음"
        else if not g.board_alive
        then "차단: CAPABILITY/BOARD_HEALTH 기준 board alive 아님"
        else if not g.control_capable
        then qt.arg "차단: %1" (pick (is_blank g.block_reason) "board control gate" g.block_reason)
        else if not g.target_bus_allowed
        then qt.arg_number "차단: target BUS %1 TX 권한 없음" (pos_part r.target.bus)
        else if g.fault_active
        then "차단: control fault/block event 활성"
        else if not r.armed
        then "대기: ARM 후 motion command 가능"
        else if not g.actual_tx_confirmed
        then "송신 대기: 성공 표시는 matching CAN_TX_RAW 필요"
        else "송신 확인: matching CAN_TX_RAW audit 기준"

    unfoldable pub checklist_row :
        String → String → String → String → String → Bool → Bool → ChecklistRow
    checklist_row key title level state detail ok blocking = record {
      key = key;
      title = title;
      level = level;
      state = state;
      detail = detail;
      ok = ok;
      blocking = blocking;
    }

    unfoldable pub operator_checklist : Gates → ControlRuntime → List ChecklistRow
    unfolding pick checklist_row
    operator_checklist g r =
        let typed = g.transport_mode is "typed" in
        checklist_row "mode" "Typed stream" (pick typed "ok" "error") (pick typed "OK" "BLOCK")
          (pick typed "production evidence path" "legacy/replay path cannot arm control") typed
          (not typed)
        ∷ checklist_row "serial" "COM" (pick g.connected "ok" "error")
            (pick g.connected "OPEN" "CLOSED")
            (pick g.connected "serial open only; board alive still separate"
              "connect typed CSM first")
            g.connected (not g.connected)
        ∷ checklist_row "board" "Board gate"
            (pick g.control_capable "ok" (pick g.board_alive "warn" "error"))
            (pick g.control_capable "CONTROL CAPABLE"
              (pick g.board_alive "ALIVE/GATED" "NOT ALIVE"))
            (pick g.control_capable "CAPABILITY + BOARD_HEALTH permit control"
              (pick (is_blank g.block_reason) "waiting for valid capability/health" g.block_reason))
            g.control_capable (not g.control_capable)
        ∷ checklist_row "bus" "Target BUS" (pick g.target_bus_allowed "ok" "error")
            (pick g.target_bus_allowed "TX ALLOWED" "TX BLOCKED")
            (pick g.target_bus_allowed "role/capability resolved for control TX"
              (qt.arg_number "target BUS %1 unresolved or not TX allowed" (pos_part r.target.bus)))
            g.target_bus_allowed (not g.target_bus_allowed)
        ∷ checklist_row "arm" "ARM" (pick r.armed "ok" "warn") (pick r.armed "ARMED" "STANDBY")
            (pick r.armed "motion commands may be requested"
              "neutral/manual target only until armed")
            r.armed false
        ∷ checklist_row "tx" "Actual TX" (pick g.actual_tx_confirmed "ok" "warn")
            (pick g.actual_tx_confirmed "CAN_TX_RAW" "NO AUDIT")
            (pick g.actual_tx_confirmed "last matching board CAN_TX_RAW confirms actual send"
              "ACK/write do not count as actual CAN success")
            g.actual_tx_confirmed false
        ∷ checklist_row "fault" "Fault/block" (pick g.fault_active "error" "ok")
            (pick g.fault_active "ACTIVE" "CLEAR")
            (pick g.fault_active "inspect fault/block stage before sending"
              "no active control fault/block event")
            (not g.fault_active) g.fault_active
        ∷ []
