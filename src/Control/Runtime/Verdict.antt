-- ===== src/Control/Runtime/Verdict.antt =====
-- The verdict and the checklist of src/backend/control/ControlRuntime.cpp, on the gate of the board.
use Prim.Native.String.{String}
use vsm_field_workstation.Prelude.{
  ◌≡◌, refl, Bool, true, false, not, Bool-cases, inl, inr, Option, none, some, List, [], ◌∷◌,
  if◌then◌else◌, arith, ◌is◌,
}
use vsm_field_workstation.Prelude.Int.{pos_part}
use vsm_field_workstation.Foreign.{Qt, Doubles}
use vsm_field_workstation.HostTx.{is_blank}
use vsm_field_workstation.Evidence.Board.{BoardConnectionState, board_alive, control_capable}
use vsm_field_workstation.Control.Audit.{ControlAuditModel, actual_tx_confirmed, fault_active}
use vsm_field_workstation.Control.Runtime.{
  Gates, ChecklistRow, ControlRuntime, pick, action_verdict, checklist_row, operator_checklist,
}

abbrev pub first_blocking : List ChecklistRow → Option ChecklistRow
first_blocking [] = none
first_blocking (row ∷ rows) =
    let later = first_blocking rows in if row.blocking then some row else later

-- The gates as the application fills them: from the evidence of the board and the audit.
abbrev pub gates : String → Bool → Bool → String → BoardConnectionState → ControlAuditModel → Gates
gates mode connected allowed reason s m = record {
  transport_mode = mode;
  connected = connected;
  board_alive = board_alive s;
  control_capable = control_capable s;
  target_bus_allowed = allowed;
  actual_tx_confirmed = actual_tx_confirmed m;
  fault_active = fault_active m;
  block_reason = reason;
}

capable_alive : (s : BoardConnectionState) → board_alive s ≡ false → control_capable s ≡ false
unfolding control_capable
capable_alive s e = rw e refl

module _ (d : Doubles) (qt : Qt) where
  -- What a row that blocks has to say, and what is said when none does.
  abbrev pub told : String → ControlRuntime d → ChecklistRow → String
  told reason r row =
      if row.key is "mode"
      then "차단: typed evidence stream 필요"
      else if row.key is "serial"
      then "차단: COM 연결 없음"
      else if row.key is "bus"
      then qt.arg_number "차단: target BUS %1 TX 권한 없음" (pos_part r.target.bus)
      else if row.key is "fault"
      then "차단: control fault/block event 활성"
      else if row.level is "error"
      then "차단: CAPABILITY/BOARD_HEALTH 기준 board alive 아님"
      else qt.arg "차단: %1" (if is_blank reason then "board control gate" else reason)

  abbrev pub verdict_for : String → Bool → ControlRuntime d → Option ChecklistRow → String
  verdict_for reason sent r (some row) = told reason r row
  verdict_for reason sent r none =
      if r.armed
      then if sent
        then "송신 확인: matching CAN_TX_RAW audit 기준"
        else "송신 대기: 성공 표시는 matching CAN_TX_RAW 필요"
      else "대기: ARM 후 motion command 가능"

  abbrev Agrees : Gates → ControlRuntime d → Type 0
  Agrees g r =
      action_verdict d qt g r
      ≡ verdict_for g.block_reason g.actual_tx_confirmed r
          (first_blocking (operator_checklist d qt g r))

  abbrev gates_of : String → String → Bool → Bool → Bool → Bool → Bool → Bool → Gates
  gates_of mode reason connected alive capable allowed fault sent = record {
    transport_mode = mode;
    connected = connected;
    board_alive = alive;
    control_capable = capable;
    target_bus_allowed = allowed;
    actual_tx_confirmed = sent;
    fault_active = fault;
    block_reason = reason;
  }

  armed_or_not :
      (b sent : Bool) (x y z : String)
      → (if not b then x else if not sent then y else z) ≡ (if b then if sent then z else y else x)
  armed_or_not true true x y z = refl
  armed_or_not true false x y z = refl
  armed_or_not false sent x y z = refl

  -- By the gates, from the first to the last.
  agrees :
      (r : ControlRuntime d) (mode reason : String)
      (connected alive capable allowed fault sent : Bool)
      → (mode is "typed") ≡ true
      → (alive ≡ false → capable ≡ false)
      → Agrees (gates_of mode reason connected alive capable allowed fault sent) r
  unfolding action_verdict operator_checklist checklist_row pick
  agrees r mode reason false alive capable allowed fault sent e h = rw e refl
  agrees r mode reason true false false allowed fault sent e h = rw e refl
  agrees r mode reason true false true allowed fault sent e h = absurd (ground (arith, h refl))
  agrees r mode reason true true false allowed fault sent e h = rw e refl
  agrees r mode reason true true true false fault sent e h = rw e refl
  agrees r mode reason true true true true true sent e h = rw e refl
  agrees r mode reason true true true true false sent e h = rw e (armed_or_not r.armed sent _ _ _)

  not_typed :
      (r : ControlRuntime d) (g : Gates) → (g.transport_mode is "typed") ≡ false → Agrees g r
  unfolding action_verdict operator_checklist checklist_row pick
  not_typed r g e = rw e refl

  -- Whatever the evidence of the board and the audit, the verdict says what the first blocking row of the
  -- checklist stands for; if no row blocks, it asks for the arming, or if armed it says that the
  -- transmission is confirmed exactly when the audit confirms it.
  pub action_verdict-operator_checklist :
      (mode : String) (connected allowed : Bool) (reason : String) (s : BoardConnectionState)
      (m : ControlAuditModel) (r : ControlRuntime d)
      → action_verdict d qt (gates mode connected allowed reason s m) r
        ≡ verdict_for reason
            (actual_tx_confirmed m)
            r
            (first_blocking (operator_checklist d qt (gates mode connected allowed reason s m) r))
  action_verdict-operator_checklist mode connected allowed reason s m r =
      elim (Bool-cases (mode is "typed")) [
        | inl e ↦
            agrees r mode reason connected (board_alive s) (control_capable s) allowed
              (fault_active m) (actual_tx_confirmed m) e (capable_alive s)
        | inr e ↦ not_typed r (gates mode connected allowed reason s m) e
      ]
