-- ===== src/Control/Audit/Acks.antt =====
-- The accepted command ids of each CAN id, of src/backend/control/ControlAuditModel.cpp, against the
-- history of the calls.
use vsm_field_workstation.Prelude.{
  ℕ, zero, suc, ◌<◌, ◌≡◌, refl, sym, ap, ◌∙◌, subst, ◌||◌, List, [], ◌∷◌, ◌++◌, ◌==◌, if◌then◌else◌,
  arith, append_assoc, append-nil, find, find-remove, find-insert, All, All-append,
}
use vsm_field_workstation.Foreign.{Qt}
use vsm_field_workstation.Control.Audit.{
  ControlAuditModel, waiting, after_take, take_first, take_accepted_command_id,
  remember_accepted_ack, note_feedback_if_due, ack_ui_due, tx_audit_ui_due, append_event,
  note_host_frame_queued, note_host_write_result, note_ack, note_tx_audit, Call, resets,
  notes_host_frame_queued, notes_host_write_result, notes_ack, remembers, takes, notes_tx_audit,
  notes_feedback, asks_ack_ui, asks_tx_audit_ui, appends, reset, step, run,
}

abbrev pub listed : ℕ → List ℕ
listed zero = []
listed (suc n) = suc n ∷ []

abbrev pub rest_of : List ℕ → List ℕ
rest_of [] = []
rest_of (x ∷ xs) = xs

-- The id that a call leaves for `can_id`, and those that it hands out or throws away.
abbrev pub accepted : ℕ → Call → List ℕ
accepted can_id (remembers k v) =
    if (k == 0) || (v == 0) then [] else if k == can_id then v ∷ [] else []
accepted can_id resets = []
accepted can_id notes_host_frame_queued = []
accepted can_id (notes_host_write_result ok) = []
accepted can_id (notes_ack ok) = []
accepted can_id (takes k) = []
accepted can_id (notes_tx_audit matched) = []
accepted can_id (notes_feedback k now interval) = []
accepted can_id (asks_ack_ui rejected now interval) = []
accepted can_id (asks_tx_audit_ui unmatched now interval) = []
accepted can_id (appends e) = []

abbrev pub gone : ℕ → Call → ControlAuditModel → List ℕ
gone can_id resets m = waiting can_id m
gone can_id (takes k) m = if k == can_id then listed (take_accepted_command_id k m).0 else []
gone can_id notes_host_frame_queued m = []
gone can_id (notes_host_write_result ok) m = []
gone can_id (notes_ack ok) m = []
gone can_id (remembers k v) m = []
gone can_id (notes_tx_audit matched) m = []
gone can_id (notes_feedback k now interval) m = []
gone can_id (asks_ack_ui rejected now interval) m = []
gone can_id (asks_tx_audit_ui unmatched now interval) m = []
gone can_id (appends e) m = []

abbrev pub all_accepted : ℕ → List Call → List ℕ
all_accepted can_id [] = []
all_accepted can_id (c ∷ cs) = accepted can_id c ++ all_accepted can_id cs

abbrev pub all_gone : Qt → ℕ → List Call → ControlAuditModel → List ℕ
all_gone qt can_id [] m = []
all_gone qt can_id (c ∷ cs) m = gone can_id c m ++ all_gone qt can_id cs (step qt c m)

waiting_remember :
    (j k v : ℕ) (m : ControlAuditModel)
    → waiting j (remember_accepted_ack k v m) ≡ waiting j m ++ accepted j (remembers k v)
unfolding remember_accepted_ack
waiting_remember j k v m =
    ground
      (arith, find-insert j k (waiting k m ++ (v ∷ [])) m.accepted_acks, append-nil (waiting j m))

waiting_after :
    (j k : ℕ) (ids : List ℕ) (m : ControlAuditModel)
    → waiting j (after_take k ids m) ≡ (if k == j then ids else waiting j m)
unfolding waiting after_take
waiting_after j k [] m = ground (arith, find-remove j k m.accepted_acks)
waiting_after j k (x ∷ xs) m = ground (arith, find-insert j k (x ∷ xs) m.accepted_acks)

-- No id that waits is 0, which stands for none.
abbrev HasNoZero : ControlAuditModel → Type 0
HasNoZero m = (j : ℕ) → All (λ v. 0 < v) (waiting j m)

taken_cases :
    (j k : ℕ) (m : ControlAuditModel) (ids : List ℕ)
    → waiting k m ≡ ids
    → All (λ v. 0 < v) ids
    → waiting j m
      ≡ (if k == j then listed (take_first k ids m).0 else []) ++ waiting j (take_first k ids m).1
unfolding take_first
taken_cases j k m [] e h = ground arith
taken_cases j k m (zero ∷ xs) e h = absurd (omega (arith, h.0))
taken_cases j k m (suc x ∷ xs) e h = ground (arith, waiting_after j k xs m)

take-waiting :
    (j k : ℕ) (m : ControlAuditModel)
    → HasNoZero m
    → waiting j m ≡ gone j (takes k) m ++ waiting j (take_accepted_command_id k m).1
unfolding take_accepted_command_id
take-waiting j k m h = taken_cases j k m (waiting k m) refl (h k)

quiet :
    (qt : Qt) (c : Call) (m : ControlAuditModel)
    → (step qt c m).accepted_acks ≡ m.accepted_acks
    → (j : ℕ) → waiting j (step qt c m) ≡ waiting j m
unfolding waiting
quiet qt c m e j = rw e

step_quiet :
    (qt : Qt) (j : ℕ) (c : Call) (m : ControlAuditModel)
    → (step qt c m).accepted_acks ≡ m.accepted_acks
    → waiting j m ++ [] ≡ waiting j (step qt c m)
step_quiet qt j c m e = append-nil (waiting j m) ∙ sym (quiet qt c m e j)

step_fifo :
    (qt : Qt) (j : ℕ) (c : Call) (m : ControlAuditModel)
    → HasNoZero m
    → waiting j m ++ accepted j c ≡ gone j c m ++ waiting j (step qt c m)
unfolding step waiting find reset note_host_frame_queued note_host_write_result note_ack
    note_tx_audit
step_fifo qt j resets m h = refl
step_fifo qt j notes_host_frame_queued m h = step_quiet qt j notes_host_frame_queued m refl
step_fifo qt j (notes_host_write_result ok) m h =
    step_quiet qt j (notes_host_write_result ok) m refl
step_fifo qt j (notes_ack ok) m h = step_quiet qt j (notes_ack ok) m refl
step_fifo qt j (remembers k v) m h = sym (waiting_remember j k v m)
step_fifo qt j (takes k) m h = append-nil (waiting j m) ∙ take-waiting j k m h
step_fifo qt j (notes_tx_audit matched) m h = step_quiet qt j (notes_tx_audit matched) m refl
step_fifo qt j (notes_feedback k now interval) m h =
    step_quiet qt j (notes_feedback k now interval) m (unfold note_feedback_if_due in ground arith)
step_fifo qt j (asks_ack_ui rejected now interval) m h =
    step_quiet qt j (asks_ack_ui rejected now interval) m (unfold ack_ui_due in ground arith)
step_fifo qt j (asks_tx_audit_ui unmatched now interval) m h =
    step_quiet qt j (asks_tx_audit_ui unmatched now interval) m
      (unfold tx_audit_ui_due in ground arith)
step_fifo qt j (appends e) m h = step_quiet qt j (appends e) m (unfold append_event in ground arith)

accepted_positive : (j : ℕ) (c : Call) → All (λ v. 0 < v) (accepted j c)
accepted_positive j (remembers k v) = ground arith
accepted_positive j resets = tt
accepted_positive j notes_host_frame_queued = tt
accepted_positive j (notes_host_write_result ok) = tt
accepted_positive j (notes_ack ok) = tt
accepted_positive j (takes k) = tt
accepted_positive j (notes_tx_audit matched) = tt
accepted_positive j (notes_feedback k now interval) = tt
accepted_positive j (asks_ack_ui rejected now interval) = tt
accepted_positive j (asks_tx_audit_ui unmatched now interval) = tt
accepted_positive j (appends e) = tt

All-right : (xs ys : List ℕ) → All (λ v. 0 < v) (xs ++ ys) → All (λ v. 0 < v) ys
All-right [] ys h = h
All-right (x ∷ xs) ys h = All-right xs ys h.1

step-HasNoZero :
    (qt : Qt) (c : Call) (m : ControlAuditModel) → HasNoZero m → HasNoZero (step qt c m)
step-HasNoZero qt c m h j = All-right (gone j c m) (waiting j (step qt c m)) (
    subst (λ xs. All (λ v. 0 < v) xs) (step_fifo qt j c m h)
      (All-append (λ v. 0 < v) (waiting j m) (accepted j c) (h j) (accepted_positive j c)))

run_acks :
    (qt : Qt) (j : ℕ) (cs : List Call) (m : ControlAuditModel)
    → HasNoZero m
    → waiting j m ++ all_accepted j cs ≡ all_gone qt j cs m ++ waiting j (run qt cs m)
unfolding run
run_acks qt j [] m h = append-nil (waiting j m)
run_acks qt j (c ∷ cs) m h =
    let later = all_accepted j cs in
    let after = all_gone qt j cs (step qt c m) in
    sym (append_assoc (waiting j m) (accepted j c) later)
    ∙ ap (λ (xs : List ℕ). xs ++ later) (step_fifo qt j c m h)
    ∙ append_assoc (gone j c m) (waiting j (step qt c m)) later
    ∙ ap (λ (xs : List ℕ). gone j c m ++ xs)
        (run_acks qt j cs (step qt c m) (step-HasNoZero qt c m h))
    ∙ sym (append_assoc (gone j c m) after (waiting j (run qt cs (step qt c m))))

reset-HasNoZero : HasNoZero reset
unfolding reset waiting find
reset-HasNoZero j = tt

waiting-reset : (j : ℕ) → waiting j reset ≡ []
unfolding reset waiting find
waiting-reset j = refl

-- From a new object, over any calls, the command ids accepted for a CAN id (the pairs with a zero left
-- out) are, in order, those handed out for it or thrown away by a reset, and then those that still wait:
-- none is lost, doubled, overtaken or handed out for another CAN id.
pub run-reset_acks :
    (qt : Qt) (can_id : ℕ) (cs : List Call)
    → all_accepted can_id cs ≡ all_gone qt can_id cs reset ++ waiting can_id (run qt cs reset)
run-reset_acks qt j cs =
    ap (λ (xs : List ℕ). xs ++ all_accepted j cs) (sym (waiting-reset j))
    ∙ run_acks qt j cs reset reset-HasNoZero
