-- ===== src/Control/Audit.antt =====
-- The audit of the operator's commands: src/backend/control/ControlAuditModel.h and
-- ControlAuditModel.cpp. A QMap is a list with one pair for a key; `model_rows` are the rows last given to
-- m_model.setRows. Wall times are numbers, and `now - last < interval` is `now < last + interval`.
-- The text of the time of day is an argument of append_event.
pub mod Acks
pub mod Rows
pub mod Levels
mod Tests
use Prim.Native.String.{String}
use vsm_field_workstation.Prelude.{
  ℕ, suc, ◌+◌, ◌%◌, ◌^◌, Bool, true, false, not, ◌&&◌, ◌||◌, Option, none, some, List, [], ◌∷◌,
  ◌++◌, ltb, leb, ◌==◌, if◌then◌else◌, add_u, length, ◌is◌, find, remove, insert,
}
use vsm_field_workstation.Foreign.{Qt}
use vsm_field_workstation.HostTx.{is_blank}

pub record AuditRow : Type 0 where
  pub key : String
  pub time_text : String
  pub stage : String
  pub level : String
  pub summary : String
  pub detail : String
  pub command_id : String
  pub can_id : String
  pub bus : String

pub record Counts : Type 0 where
  pub host_frame_queued : ℕ
  pub host_write_ok : ℕ
  pub host_write_fail : ℕ
  pub ack_accepted : ℕ
  pub ack_rejected : ℕ
  pub tx_audit_matched : ℕ
  pub tx_audit_unmatched : ℕ
  pub feedback_observed : ℕ

pub record LastTexts : Type 0 where
  pub request : String
  pub host_write : String
  pub ack : String
  pub audit : String
  pub feedback : String
  pub fault : String

pub record LastLevels : Type 0 where
  pub host_write : String
  pub ack : String
  pub audit : String
  pub feedback : String
  pub fault : String

pub record ControlAuditModel : Type 0 where
  pub model_rows : List AuditRow
  pub rows : List AuditRow
  pub accepted_acks : List (ℕ × List ℕ)
  pub feedback_last_wall_ms : List (ℕ × ℕ)
  pub event_counter : ℕ
  pub counts : Counts
  pub last_ack_ui_wall_ms : ℕ
  pub last_audit_ui_wall_ms : ℕ
  pub texts : LastTexts
  pub levels : LastLevels

-- The state that reset leaves, which is also that of a new object.
unfoldable pub reset : ControlAuditModel
reset = record {
  model_rows = [];
  rows = [];
  accepted_acks = [];
  feedback_last_wall_ms = [];
  event_counter = 0;
  counts = record {
    host_frame_queued = 0;
    host_write_ok = 0;
    host_write_fail = 0;
    ack_accepted = 0;
    ack_rejected = 0;
    tx_audit_matched = 0;
    tx_audit_unmatched = 0;
    feedback_observed = 0;
  };
  last_ack_ui_wall_ms = 0;
  last_audit_ui_wall_ms = 0;
  texts = record {
    request = "No host request queued yet";
    host_write = "No Qt serial write yet";
    ack = "No CONTROL_ACK yet";
    audit = "No CAN_TX_RAW audit yet";
    feedback = "No feedback CAN_RX observed yet";
    fault = "No control fault/block event yet";
  };
  levels = record {
    host_write = "info";
    ack = "info";
    audit = "info";
    feedback = "info";
    fault = "ok";
  };
}

unfoldable pub note_host_frame_queued : ControlAuditModel → ControlAuditModel
note_host_frame_queued m = record m {
  counts = record (m.counts) { host_frame_queued = add_u 64 m.counts.host_frame_queued 1 };
}

unfoldable pub note_host_write_result : Bool → ControlAuditModel → ControlAuditModel
note_host_write_result ok m = record m {
  counts =
      if ok
      then record (m.counts) { host_write_ok = add_u 64 m.counts.host_write_ok 1 }
      else record (m.counts) { host_write_fail = add_u 64 m.counts.host_write_fail 1 };
}

unfoldable pub note_ack : Bool → ControlAuditModel → ControlAuditModel
note_ack accepted m = record m {
  counts =
      if accepted
      then record (m.counts) { ack_accepted = add_u 64 m.counts.ack_accepted 1 }
      else record (m.counts) { ack_rejected = add_u 64 m.counts.ack_rejected 1 };
}

-- operator[] of QMap: a missing key has an empty queue.
unfoldable pub waiting : ℕ → ControlAuditModel → List ℕ
waiting can_id m = elim (find can_id m.accepted_acks) [ none ↦ [] | some ids ↦ ids ]

unfoldable pub remember_accepted_ack : ℕ → ℕ → ControlAuditModel → ControlAuditModel
unfolding waiting
remember_accepted_ack can_id command_id m =
    if (can_id == 0) || (command_id == 0) then m else record m {
      accepted_acks = insert can_id (waiting can_id m ++ (command_id ∷ [])) m.accepted_acks;
    }

unfoldable pub after_take : ℕ → List ℕ → ControlAuditModel → ControlAuditModel
after_take can_id [] m = record m { accepted_acks = remove can_id m.accepted_acks }
after_take can_id (id ∷ ids) m = record m {
  accepted_acks = insert can_id (id ∷ ids) m.accepted_acks;
}

unfoldable pub take_first : ℕ → List ℕ → ControlAuditModel → ℕ × ControlAuditModel
unfolding after_take
take_first can_id [] m = (0, m)
take_first can_id (id ∷ ids) m = (id, after_take can_id ids m)

unfoldable pub take_accepted_command_id : ℕ → ControlAuditModel → ℕ × ControlAuditModel
unfolding waiting take_first
take_accepted_command_id can_id m = take_first can_id (waiting can_id m) m

unfoldable pub note_tx_audit : Bool → ControlAuditModel → ControlAuditModel
note_tx_audit matched m = record m {
  counts =
      if matched
      then record (m.counts) { tx_audit_matched = add_u 64 m.counts.tx_audit_matched 1 }
      else record (m.counts) { tx_audit_unmatched = add_u 64 m.counts.tx_audit_unmatched 1 };
}

-- value(canId, 0) of QMap.
unfoldable pub last_feedback : ℕ → ControlAuditModel → ℕ
last_feedback can_id m = elim (find can_id m.feedback_last_wall_ms) [ none ↦ 0 | some t ↦ t ]

unfoldable pub note_feedback_if_due : ℕ → ℕ → ℕ → ControlAuditModel → Bool × ControlAuditModel
unfolding last_feedback
note_feedback_if_due can_id now_wall_ms min_interval_ms m =
    if ltb now_wall_ms (last_feedback can_id m + min_interval_ms) then (false, m) else (
      true,
      record m {
        feedback_last_wall_ms = insert can_id now_wall_ms m.feedback_last_wall_ms;
        counts = record (m.counts) { feedback_observed = add_u 64 m.counts.feedback_observed 1 };
      },
    )

unfoldable pub is_ui_due : Bool → ℕ → ℕ → ℕ → Bool
is_ui_due urgent last_wall_ms now_wall_ms min_interval_ms =
    urgent || ((last_wall_ms == 0) || leb (last_wall_ms + min_interval_ms) now_wall_ms)

unfoldable pub ack_ui_due : Bool → ℕ → ℕ → ControlAuditModel → Bool × ControlAuditModel
unfolding is_ui_due
ack_ui_due rejected now_wall_ms min_interval_ms m =
    if is_ui_due rejected m.last_ack_ui_wall_ms now_wall_ms min_interval_ms
    then (true, record m { last_ack_ui_wall_ms = now_wall_ms })
    else (false, m)

unfoldable pub tx_audit_ui_due : Bool → ℕ → ℕ → ControlAuditModel → Bool × ControlAuditModel
unfolding is_ui_due
tx_audit_ui_due unmatched now_wall_ms min_interval_ms m =
    if is_ui_due unmatched m.last_audit_ui_wall_ms now_wall_ms min_interval_ms
    then (true, record m { last_audit_ui_wall_ms = now_wall_ms })
    else (false, m)

unfoldable pub pending_loop : ℕ → List (ℕ × List ℕ) → ℕ
pending_loop pending [] = pending
pending_loop pending ((k, ids) ∷ rest) = pending_loop (add_u 64 pending (length ids)) rest

unfoldable pub pending_audit_count : ControlAuditModel → ℕ
unfolding pending_loop
pending_audit_count m = pending_loop 0 m.accepted_acks

unfoldable pub actual_tx_confirmed : ControlAuditModel → Bool
actual_tx_confirmed m = m.levels.audit is "ok"

unfoldable pub fault_active : ControlAuditModel → Bool
fault_active m = m.levels.fault is "error"

-- The first half of appendEvent: the texts and levels of the stages.
unfoldable pub stage_texts : String → String → String → LastTexts → LastTexts
stage_texts stage level text t =
    if stage is "REQUEST"
    then record t { request = text }
    else if stage is "HOST_WRITE"
    then record t { host_write = text; fault = if level is "error" then text else t.fault }
    else if stage is "CONTROL_ACK"
    then record t { ack = text; fault = if level is "error" then text else t.fault }
    else if stage is "CAN_TX_RAW"
    then record t {
      audit = text;
      fault = if level is "ok" then "No active control fault/block event" else t.fault;
    }
    else if stage is "CAN_RX_FEEDBACK"
    then record t { feedback = text }
    else if (stage is "BLOCKED") || (stage is "BOARD_EVENT")
    then record t { fault = text }
    else t

unfoldable pub stage_levels : String → String → LastLevels → LastLevels
stage_levels stage level l =
    if stage is "REQUEST"
    then l
    else if stage is "HOST_WRITE"
    then record l {
      host_write = if level is "error" then "error" else "ok";
      fault = if level is "error" then "error" else l.fault;
    }
    else if stage is "CONTROL_ACK"
    then record l {
      ack = if level is "error" then "error" else "info";
      fault = if level is "error" then "error" else l.fault;
    }
    else if stage is "CAN_TX_RAW"
    then record l {
      audit = if level is "ok" then "ok" else "warn";
      fault = if level is "ok" then "ok" else l.fault;
    }
    else if stage is "CAN_RX_FEEDBACK"
    then record l { feedback = "info" }
    else if (stage is "BLOCKED") || (stage is "BOARD_EVENT")
    then record l { fault = "error" }
    else l

unfoldable pub is_routine_ok : String → String → Bool
is_routine_ok stage level =
    not (level is "error")
    && ((stage is "HOST_WRITE") || ((stage is "CONTROL_ACK") || (stage is "CAN_TX_RAW")))

-- `while (m_rows.size() > 80) m_rows.removeFirst();`
unfoldable pub trimmed_rows : List AuditRow → List AuditRow
trimmed_rows [] = []
trimmed_rows (row ∷ rows) =
    let fewer = trimmed_rows rows in if ltb 80 (suc (length rows)) then fewer else row ∷ rows

pub record Event : Type 0 where
  pub stage : String
  pub level : String
  pub summary : String
  pub detail : String
  pub command_id : ℕ
  pub can_id : ℕ
  pub bus : ℕ
  pub time_text : String

unfoldable pub is_sampled_out : Event → Bool
unfolding is_routine_ok
is_sampled_out e =
    is_routine_ok e.stage e.level && (ltb 0 e.command_id && not (e.command_id % 25 == 0))

module _ (qt : Qt) where
  unfoldable pub id_text : ℕ → String
  id_text id = qt.to_upper (qt.arg_hex "0X%1" id 0)

  unfoldable pub event_row : ℕ → Event → AuditRow
  unfolding id_text
  event_row counter e = record {
    key = qt.arg_padded "%1" counter 12;
    time_text = e.time_text;
    stage = e.stage;
    level = e.level;
    summary = e.summary;
    detail = e.detail;
    command_id = if ltb 0 e.command_id then qt.arg_number "#%1" e.command_id else "";
    can_id = if ltb 0 e.can_id then id_text e.can_id else "";
    bus = if ltb 0 e.can_id then qt.arg_number "BUS %1" e.bus else "";
  }

  unfoldable pub append_event : Event → ControlAuditModel → ControlAuditModel
  unfolding stage_texts stage_levels is_sampled_out event_row trimmed_rows
  append_event e m =
      let stage_text = if is_blank e.detail then e.summary else e.detail in
      let texts = stage_texts e.stage e.level stage_text m.texts in
      let levels = stage_levels e.stage e.level m.levels in
      let counter = add_u 64 m.event_counter 1 in
      let rows = trimmed_rows (m.rows ++ (event_row counter e ∷ [])) in
      if is_sampled_out e then record m { texts = texts; levels = levels } else record m {
        texts = texts;
        levels = levels;
        event_counter = counter;
        rows = rows;
        model_rows = rows;
      }

  unfoldable pub stats_summary : ControlAuditModel → String
  stats_summary m =
      let c = m.counts in
      let first =
        qt.arg_number
          "요청 %1 | Qt write OK/Fail %2/%3 | ACK OK/Reject %4/%5 | TX audit 대기/매칭/미매칭 %6/%7/%8 | feedback %9"
          c.host_frame_queued in
      let writes = qt.arg_number (qt.arg_number first c.host_write_ok) c.host_write_fail in
      let acks = qt.arg_number (qt.arg_number writes c.ack_accepted) c.ack_rejected in
      let audits =
        qt.arg_number
          (qt.arg_number (qt.arg_number acks (pending_audit_count m)) c.tx_audit_matched)
          c.tx_audit_unmatched in
      qt.arg_number audits c.feedback_observed

pub record StageRow : Type 0 where
  pub key : String
  pub title : String
  pub level : String
  pub summary : String
  pub evidence : String
  pub authority : String
  pub operator_text : String
  pub success_authority : Bool

unfoldable pub stage_row :
    String → String → String → String → String → String → String → Bool → StageRow
stage_row key title level summary evidence authority operator_text success_authority = record {
  key = key;
  title = title;
  level = level;
  summary = summary;
  evidence = evidence;
  authority = authority;
  operator_text = operator_text;
  success_authority = success_authority;
}

unfoldable pub stages : ControlAuditModel → List StageRow
unfolding stage_row
stages m =
    stage_row "request" "1 요청" "info" m.texts.request "HOST_CAN_TX_REQUEST" "host_request"
      "운전자 의도/host 요청" false
    ∷ stage_row "write" "2 Qt write" m.levels.host_write m.texts.host_write "serial write result"
        "serial_only" "PC가 보드로 넘긴 상태" false
    ∷ stage_row "ack" "3 CONTROL_ACK" m.levels.ack m.texts.ack "board decision only"
        "board_acceptance_only" "보드 접수 증거, CAN 성공 아님" false
    ∷ stage_row "tx" "4 CAN_TX_RAW" m.levels.audit m.texts.audit "actual CAN TX success"
        "actual_can_tx" "실제 CAN 송신 성공 기준" true
    ∷ stage_row "feedback" "5 feedback" m.levels.feedback m.texts.feedback
        "CAN_RX feedback/echo candidate" "external_feedback" "외부 반응 후보, 송신 증거와 별도" false
    ∷ stage_row "fault" "6 fault/block" m.levels.fault m.texts.fault
        "gate, board event, write failure" "blocking_fault" "차단/실패 원인" false
    ∷ []

-- The calls that change the state.
pub data Call : Type 0 where
  resets : Call
  notes_host_frame_queued : Call
  notes_host_write_result : Bool → Call
  notes_ack : Bool → Call
  remembers : ℕ → ℕ → Call
  takes : ℕ → Call
  notes_tx_audit : Bool → Call
  notes_feedback : ℕ → ℕ → ℕ → Call
  asks_ack_ui : Bool → ℕ → ℕ → Call
  asks_tx_audit_ui : Bool → ℕ → ℕ → Call
  appends : Event → Call

unfoldable pub step : Qt → Call → ControlAuditModel → ControlAuditModel
step qt resets m = reset
step qt notes_host_frame_queued m = note_host_frame_queued m
step qt (notes_host_write_result ok) m = note_host_write_result ok m
step qt (notes_ack accepted) m = note_ack accepted m
step qt (remembers can_id command_id) m = remember_accepted_ack can_id command_id m
step qt (takes can_id) m = (take_accepted_command_id can_id m).1
step qt (notes_tx_audit matched) m = note_tx_audit matched m
step qt (notes_feedback can_id now interval) m = (note_feedback_if_due can_id now interval m).1
step qt (asks_ack_ui rejected now interval) m = (ack_ui_due rejected now interval m).1
step qt (asks_tx_audit_ui unmatched now interval) m = (tx_audit_ui_due unmatched now interval m).1
step qt (appends e) m = append_event qt e m

unfoldable pub run : Qt → List Call → ControlAuditModel → ControlAuditModel
unfolding step
run qt [] m = m
run qt (c ∷ cs) m = run qt cs (step qt c m)
