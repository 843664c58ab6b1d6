-- ===== src/Control/Audit/Levels.antt =====
-- The levels of the stages, of src/backend/control/ControlAuditModel.cpp, against the history of the
-- events.
use Prim.Native.String.{String}
use vsm_field_workstation.Prelude.{
  ℕ, ◌≡◌, refl, ap, ◌∙◌, Bool, true, false, not, ◌&&◌, ◌||◌, Bool-cases, inl, inr, List, [], ◌∷◌,
  if◌then◌else◌, arith, ◌is◌, is_iff,
}
use vsm_field_workstation.Foreign.{Qt}
use vsm_field_workstation.Control.Audit.{
  LastLevels, ControlAuditModel, stage_levels, append_event, note_feedback_if_due, ack_ui_due,
  tx_audit_ui_due, remember_accepted_ack, is_sampled_out, take_accepted_command_id, take_first,
  after_take, note_host_frame_queued, note_host_write_result, note_ack, note_tx_audit, Event, Call,
  resets, notes_host_frame_queued, notes_host_write_result, notes_ack, remembers, takes,
  notes_tx_audit, notes_feedback, asks_ack_ui, asks_tx_audit_ui, appends, reset, step, run,
  actual_tx_confirmed, fault_active,
}

-- Sent: the newest audit event since the last reset was "ok".
abbrev pub confirmed : Call → Bool → Bool
confirmed resets before = false
confirmed (appends e) before = if e.stage is "CAN_TX_RAW" then e.level is "ok" else before
confirmed notes_host_frame_queued before = before
confirmed (notes_host_write_result ok) before = before
confirmed (notes_ack ok) before = before
confirmed (remembers k v) before = before
confirmed (takes k) before = before
confirmed (notes_tx_audit matched) before = before
confirmed (notes_feedback k now interval) before = before
confirmed (asks_ack_ui rejected now interval) before = before
confirmed (asks_tx_audit_ui unmatched now interval) before = before

-- Events that raise a fault, and those that clear it.
abbrev pub raises : Event → Bool
raises e =
    ((e.stage is "BLOCKED") || (e.stage is "BOARD_EVENT"))
    || (((e.stage is "HOST_WRITE") || (e.stage is "CONTROL_ACK")) && (e.level is "error"))

abbrev pub clears : Event → Bool
clears e = (e.stage is "CAN_TX_RAW") && (e.level is "ok")

abbrev pub faulted : Call → Bool → Bool
faulted resets before = false
faulted (appends e) before = raises e || (not (clears e) && before)
faulted notes_host_frame_queued before = before
faulted (notes_host_write_result ok) before = before
faulted (notes_ack ok) before = before
faulted (remembers k v) before = before
faulted (takes k) before = before
faulted (notes_tx_audit matched) before = before
faulted (notes_feedback k now interval) before = before
faulted (asks_ack_ui rejected now interval) before = before
faulted (asks_tx_audit_ui unmatched now interval) before = before

abbrev pub over {ℓ} : {A : Type ℓ} → (Call → A → A) → List Call → A → A
over f [] a = a
over f (c ∷ cs) a = over f cs (f c a)

-- A stage that is one of the texts can be replaced by it.
audit_ok : (level : String) → (((if level is "ok" then "ok" else "warn") is "ok") ≡ (level is "ok"))
audit_ok level = elim (Bool-cases (level is "ok")) [ inl e ↦ rw e refl | inr e ↦ rw e refl ]

-- An error is a fault, anything else leaves what was.
error_or :
    (b : Bool) (fault : String)
    → ((if b then "error" else fault) is "error") ≡ (b || (fault is "error"))
error_or true fault = refl
error_or false fault = refl

ok_or :
    (b : Bool) (fault : String)
    → ((if b then "ok" else fault) is "error") ≡ (not b && (fault is "error"))
ok_or true fault = refl
ok_or false fault = refl

stage_levels-audit :
    (stage level : String) (l : LastLevels)
    → ((stage_levels stage level l).audit is "ok")
      ≡ (if stage is "CAN_TX_RAW" then level is "ok" else l.audit is "ok")
unfolding stage_levels
stage_levels-audit stage level l = elim (Bool-cases (stage is "CAN_TX_RAW")) [
  | inl e ↦ rw ((is_iff stage "CAN_TX_RAW").0 e) (audit_ok level)
  | inr e ↦ ground (arith, e)
]

abbrev FaultAs : Event → LastLevels → Type 0
FaultAs e l =
    ((stage_levels e.stage e.level l).fault is "error")
    ≡ (raises e || (not (clears e) && (l.fault is "error")))

stage_levels-fault : (e : Event) (l : LastLevels) → FaultAs e l
unfolding stage_levels
stage_levels-fault e l = elim (Bool-cases (e.stage is "REQUEST")) [
  | inl h ↦ rw ((is_iff e.stage "REQUEST").0 h) refl
  | inr h1 ↦ elim (Bool-cases (e.stage is "HOST_WRITE")) [
    | inl h ↦ rw ((is_iff e.stage "HOST_WRITE").0 h) (error_or (e.level is "error") l.fault)
    | inr h2 ↦ elim (Bool-cases (e.stage is "CONTROL_ACK")) [
      | inl h ↦ rw ((is_iff e.stage "CONTROL_ACK").0 h) (error_or (e.level is "error") l.fault)
      | inr h3 ↦ elim (Bool-cases (e.stage is "CAN_TX_RAW")) [
        | inl h ↦ rw ((is_iff e.stage "CAN_TX_RAW").0 h) (ok_or (e.level is "ok") l.fault)
        | inr h4 ↦ elim (Bool-cases (e.stage is "CAN_RX_FEEDBACK")) [
          | inl h ↦ rw ((is_iff e.stage "CAN_RX_FEEDBACK").0 h) refl
          | inr h5 ↦ elim (Bool-cases (e.stage is "BLOCKED")) [
            | inl h ↦ rw ((is_iff e.stage "BLOCKED").0 h) refl
            | inr h6 ↦ elim (Bool-cases (e.stage is "BOARD_EVENT")) [
              | inl h ↦ rw ((is_iff e.stage "BOARD_EVENT").0 h) refl
              | inr h7 ↦ rw (h1, h2, h3, h4, h5, h6, h7) refl
            ]
          ]
        ]
      ]
    ]
  ]
]

append_event-levels :
    (qt : Qt) (e : Event) (m : ControlAuditModel)
    → (append_event qt e m).levels ≡ stage_levels e.stage e.level m.levels
unfolding append_event
append_event-levels qt e m = elim (Bool-cases (is_sampled_out e)) [
  | inl h ↦ rw h refl
  | inr h ↦ rw h refl
]

take_first-levels :
    (k : ℕ) (ids : List ℕ) (m : ControlAuditModel) → (take_first k ids m).1.levels ≡ m.levels
unfolding take_first after_take
take_first-levels k [] m = refl
take_first-levels k (id ∷ []) m = refl
take_first-levels k (id ∷ next ∷ ids) m = refl

record Says (sent fault : Bool) (m : ControlAuditModel) : Type 0 where
  sent_as : actual_tx_confirmed m ≡ sent
  fault_as : fault_active m ≡ fault

same :
    (sent fault : Bool) (m n : ControlAuditModel)
    → n.levels ≡ m.levels
    → Says sent fault m
    → Says sent fault n
unfolding actual_tx_confirmed fault_active
same sent fault m n e s = record {
  sent_as = ap (λ l. l.audit is "ok") e ∙ s.sent_as;
  fault_as = ap (λ l. l.fault is "error") e ∙ s.fault_as;
}

append_event-Says :
    (qt : Qt) (e : Event) (sent fault : Bool) (m : ControlAuditModel)
    → Says sent fault m
    → Says (confirmed (appends e) sent) (faulted (appends e) fault) (append_event qt e m)
unfolding actual_tx_confirmed fault_active
append_event-Says qt e sent fault m s = record {
  sent_as =
      ap (λ l. l.audit is "ok") (append_event-levels qt e m)
      ∙ stage_levels-audit e.stage e.level m.levels
      ∙ ap (λ b. if e.stage is "CAN_TX_RAW" then e.level is "ok" else b) s.sent_as;
  fault_as =
      ap (λ l. l.fault is "error") (append_event-levels qt e m)
      ∙ stage_levels-fault e m.levels
      ∙ ap (λ b. raises e || (not (clears e) && b)) s.fault_as;
}

step-Says :
    (qt : Qt) (c : Call) (sent fault : Bool) (m : ControlAuditModel)
    → Says sent fault m
    → Says (confirmed c sent) (faulted c fault) (step qt c m)
unfolding step reset note_host_frame_queued note_host_write_result note_ack note_tx_audit
    remember_accepted_ack take_accepted_command_id note_feedback_if_due ack_ui_due tx_audit_ui_due
    actual_tx_confirmed fault_active
step-Says qt resets sent fault m s = record { sent_as = refl; fault_as = refl }
step-Says qt notes_host_frame_queued sent fault m s = same sent fault m _ refl s
step-Says qt (notes_host_write_result ok) sent fault m s = same sent fault m _ refl s
step-Says qt (notes_ack ok) sent fault m s = same sent fault m _ refl s
step-Says qt (remembers k v) sent fault m s =
    same sent fault m (step qt (remembers k v) m) (ground arith) s
step-Says qt (takes k) sent fault m s = same sent fault m _ (take_first-levels k _ m) s
step-Says qt (notes_tx_audit matched) sent fault m s = same sent fault m _ refl s
step-Says qt (notes_feedback k now interval) sent fault m s =
    same sent fault m (step qt (notes_feedback k now interval) m) (ground arith) s
step-Says qt (asks_ack_ui rejected now interval) sent fault m s =
    same sent fault m (step qt (asks_ack_ui rejected now interval) m) (ground arith) s
step-Says qt (asks_tx_audit_ui unmatched now interval) sent fault m s =
    same sent fault m (step qt (asks_tx_audit_ui unmatched now interval) m) (ground arith) s
step-Says qt (appends e) sent fault m s = append_event-Says qt e sent fault m s

run-Says :
    (qt : Qt) (cs : List Call) (sent fault : Bool) (m : ControlAuditModel)
    → Says sent fault m
    → Says (over confirmed cs sent) (over faulted cs fault) (run qt cs m)
unfolding run
run-Says qt [] sent fault m s = s
run-Says qt (c ∷ cs) sent fault m s =
    run-Says qt cs (confirmed c sent) (faulted c fault) (step qt c m)
      (step-Says qt c sent fault m s)

-- From a new object, over any calls: a transmission counts as confirmed exactly when the newest event of
-- the stage CAN_TX_RAW since the last reset had the level "ok", whatever was written or acknowledged; and
-- a fault is active exactly when, since the last reset, an event of BLOCKED or BOARD_EVENT, or an error of
-- HOST_WRITE or CONTROL_ACK, came and no CAN_TX_RAW event of level "ok" came after it.
pub run-reset_levels :
    (qt : Qt) (cs : List Call)
    → (actual_tx_confirmed (run qt cs reset) ≡ over confirmed cs false)
      × (fault_active (run qt cs reset) ≡ over faulted cs false)
unfolding reset actual_tx_confirmed fault_active
run-reset_levels qt cs =
    let s = run-Says qt cs false false reset (record { sent_as = refl; fault_as = refl }) in
    (s.sent_as, s.fault_as)
