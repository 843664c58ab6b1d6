-- ===== src/Control/Audit/Rows.antt =====
-- The rows that the operator sees, of src/backend/control/ControlAuditModel.cpp, against the history of
-- the events.
use vsm_field_workstation.Prelude.{
  ℕ, suc, ◌+◌, ◌-◌, ◌%◌, ◌^◌, ◌<◌, ◌≡◌, refl, sym, ap, ◌∙◌, Bool, true, false, not, ◌||◌, ◌==◌,
  ◌is◌, Bool-cases, inl, inr, List, [], ◌∷◌, ◌++◌, if◌then◌else◌, arith, ltb, length, drop,
  length-append, length-drop, drop-append_le, drop-drop, dec_lt, ltb→lt, add_u,
}
use vsm_field_workstation.Foreign.{Qt}
use vsm_field_workstation.Control.Audit.{
  AuditRow, ControlAuditModel, trimmed_rows, event_row, is_routine_ok, is_sampled_out, id_text,
  append_event, note_feedback_if_due, ack_ui_due, tx_audit_ui_due, remember_accepted_ack,
  take_accepted_command_id, take_first, after_take, note_host_frame_queued, note_host_write_result,
  note_ack, note_tx_audit, Event, Call, resets, notes_host_frame_queued, notes_host_write_result,
  notes_ack, remembers, takes, notes_tx_audit, notes_feedback, asks_ack_ui, asks_tx_audit_ui,
  appends, reset, step, run,
}

-- The last n of a list.
abbrev pub newest {ℓ} : {A : Type ℓ} → ℕ → List A → List A
newest n xs = drop (length xs - n) xs

-- Whether an event has a row: every error, every stage but three, and of these the events without a
-- command id and those of every 25th.
abbrev pub is_shown : Event → Bool
is_shown e =
    (e.level is "error")
    || (not ((e.stage is "HOST_WRITE") || ((e.stage is "CONTROL_ACK") || (e.stage is "CAN_TX_RAW")))
        || ((e.command_id == 0) || (e.command_id % 25 == 0)))

is_sampled_out-is_shown : (e : Event) → is_sampled_out e ≡ not (is_shown e)
unfolding is_sampled_out is_routine_ok
is_sampled_out-is_shown e = ground arith

-- The row of the event that is the `number`th of those shown.
abbrev pub row_of : Qt → ℕ → Event → AuditRow
row_of qt number e = record {
  key = qt.arg_padded "%1" number 12;
  time_text = e.time_text;
  stage = e.stage;
  level = e.level;
  summary = e.summary;
  detail = e.detail;
  command_id = if e.command_id == 0 then "" else qt.arg_number "#%1" e.command_id;
  can_id = if e.can_id == 0 then "" else qt.to_upper (qt.arg_hex "0X%1" e.can_id 0);
  bus = if e.can_id == 0 then "" else qt.arg_number "BUS %1" e.bus;
}

ltb-zero : (n : ℕ) → ltb 0 n ≡ not (n == 0)
ltb-zero n = ground arith

if-not {ℓ} : {A : Type ℓ} (b : Bool) (x y : A) → (if not b then x else y) ≡ (if b then y else x)
if-not true x y = refl
if-not false x y = refl

event_row-row_of : (qt : Qt) (number : ℕ) (e : Event) → event_row qt number e ≡ row_of qt number e
unfolding event_row id_text
event_row-row_of qt number e = rw (
  ltb-zero e.command_id,
  ltb-zero e.can_id,
  if-not (e.command_id == 0),
  if-not (e.can_id == 0),
  if-not (e.can_id == 0),
)

-- The rows of the events that are shown, since the last reset, numbered from 1 on.
abbrev pub noted : Qt → Call → List AuditRow → List AuditRow
noted qt resets seen = []
noted qt (appends e) seen =
    if is_shown e then seen ++ (row_of qt ((length seen + 1) % 2 ^ 64) e ∷ []) else seen
noted qt notes_host_frame_queued seen = seen
noted qt (notes_host_write_result ok) seen = seen
noted qt (notes_ack ok) seen = seen
noted qt (remembers k v) seen = seen
noted qt (takes k) seen = seen
noted qt (notes_tx_audit matched) seen = seen
noted qt (notes_feedback k now interval) seen = seen
noted qt (asks_ack_ui rejected now interval) seen = seen
noted qt (asks_tx_audit_ui unmatched now interval) seen = seen

abbrev pub journal : Qt → List Call → List AuditRow → List AuditRow
journal qt [] seen = seen
journal qt (c ∷ cs) seen = journal qt cs (noted qt c seen)

trimmed_rows-newest : (rows : List AuditRow) → trimmed_rows rows ≡ newest 80 rows
unfolding trimmed_rows
trimmed_rows-newest [] = refl
trimmed_rows-newest (row ∷ rows) = elim (Bool-cases (ltb 80 (suc (length rows)))) [
  | inl more ↦
      let one : suc (length rows) - 80 ≡ suc (length rows - 80) =
        omega (arith, ltb→lt 80 (suc (length rows)) more) in
      rw more (rw one (trimmed_rows-newest rows))
  | inr few ↦ let nothing : suc (length rows) - 80 ≡ 0 = ground arith in rw few (rw nothing refl)
]

module _ {ℓ} {A : Type ℓ} where
  -- Only the newest need be kept for what comes next.
  newest-append :
      (n : ℕ) (xs : List A) (x : A)
      → 0 < n
      → newest n (newest n xs ++ (x ∷ [])) ≡ newest n (xs ++ (x ∷ []))
  newest-append n xs x some_kept = elim (dec_lt (length xs) n) [
    | yes few ↦ let all : length xs - n ≡ 0 = omega arith in rw all refl
    | no many ↦
        let k : ℕ = length xs - n in
        let size : length (drop k xs) ≡ n = omega (arith, length-drop k xs) in
        let over : length (drop k xs ++ (x ∷ [])) - n ≡ 1 =
          omega (arith, size, length-append (drop k xs) (x ∷ [])) in
        let whole : length (xs ++ (x ∷ [])) - n ≡ k + 1 =
          omega (arith, length-append xs (x ∷ [])) in
        ap (λ i. drop i (drop k xs ++ (x ∷ []))) over
        ∙ drop-append_le (drop k xs) (x ∷ []) 1 (omega (arith, size))
        ∙ ap (λ ys. ys ++ (x ∷ [])) (drop-drop 1 k xs)
        ∙ sym (drop-append_le xs (x ∷ []) (k + 1) (omega arith))
        ∙ ap (λ i. drop i (xs ++ (x ∷ []))) (sym whole)
  ]

record Shows (seen : List AuditRow) (m : ControlAuditModel) : Type 0 where
  kept : m.rows ≡ newest 80 seen
  model : m.model_rows ≡ m.rows
  counted : m.event_counter ≡ length seen % 2 ^ 64

append_event-Shows :
    (qt : Qt) (e : Event) (seen : List AuditRow) (m : ControlAuditModel)
    → Shows seen m
    → Shows (noted qt (appends e) seen) (append_event qt e m)
unfolding append_event
append_event-Shows qt e seen m s = elim (Bool-cases (is_shown e)) [
  | inr out ↦
      rw (is_sampled_out-is_shown e, out)
        record { kept = s.kept; model = s.model; counted = s.counted }
  | inl in_ ↦
      let counter : add_u 64 m.event_counter 1 ≡ (length seen + 1) % 2 ^ 64 =
        omega (arith, s.counted) in
      let row = row_of qt ((length seen + 1) % 2 ^ 64) e in
      rw (is_sampled_out-is_shown e, in_, event_row-row_of qt)
        record {
          kept =
              trimmed_rows-newest (m.rows ++ (row_of qt (add_u 64 m.event_counter 1) e ∷ []))
              ∙ ap (λ n. newest 80 (m.rows ++ (row_of qt n e ∷ []))) counter
              ∙ ap (λ rows. newest 80 (rows ++ (row ∷ []))) s.kept
              ∙ newest-append 80 seen row (omega arith);
          model = refl;
          counted = omega (arith, s.counted, length-append seen (row ∷ []));
        }
]

-- A call that leaves the rows alone.
same :
    (seen : List AuditRow) (m n : ControlAuditModel)
    → n.rows ≡ m.rows
    → n.model_rows ≡ m.model_rows
    → n.event_counter ≡ m.event_counter
    → Shows seen m
    → Shows seen n
same seen m n r q c s = record {
  kept = r ∙ s.kept;
  model = q ∙ s.model ∙ sym r;
  counted = c ∙ s.counted;
}

take_first-Shows :
    (k : ℕ) (ids : List ℕ) (seen : List AuditRow) (m : ControlAuditModel)
    → Shows seen m
    → Shows seen (take_first k ids m).1
unfolding take_first after_take
take_first-Shows k [] seen m s = s
take_first-Shows k (id ∷ []) seen m s = same seen m _ refl refl refl s
take_first-Shows k (id ∷ next ∷ ids) seen m s = same seen m _ refl refl refl s

step-Shows :
    (qt : Qt) (c : Call) (seen : List AuditRow) (m : ControlAuditModel)
    → Shows seen m
    → Shows (noted qt c seen) (step qt c m)
unfolding step reset note_host_frame_queued note_host_write_result note_ack note_tx_audit
    remember_accepted_ack take_accepted_command_id note_feedback_if_due ack_ui_due tx_audit_ui_due
step-Shows qt resets seen m s = record { kept = refl; model = refl; counted = refl }
step-Shows qt notes_host_frame_queued seen m s = same seen m _ refl refl refl s
step-Shows qt (notes_host_write_result ok) seen m s = same seen m _ refl refl refl s
step-Shows qt (notes_ack ok) seen m s = same seen m _ refl refl refl s
step-Shows qt (remembers k v) seen m s = ground (arith, s)
step-Shows qt (takes k) seen m s = take_first-Shows k _ seen m s
step-Shows qt (notes_tx_audit matched) seen m s = same seen m _ refl refl refl s
step-Shows qt (notes_feedback k now interval) seen m s =
    same seen m (step qt (notes_feedback k now interval) m) (ground arith) (ground arith)
      (ground arith) s
step-Shows qt (asks_ack_ui rejected now interval) seen m s =
    same seen m (step qt (asks_ack_ui rejected now interval) m) (ground arith) (ground arith)
      (ground arith) s
step-Shows qt (asks_tx_audit_ui unmatched now interval) seen m s =
    same seen m (step qt (asks_tx_audit_ui unmatched now interval) m) (ground arith) (ground arith)
      (ground arith) s
step-Shows qt (appends e) seen m s = append_event-Shows qt e seen m s

run-Shows :
    (qt : Qt) (cs : List Call) (seen : List AuditRow) (m : ControlAuditModel)
    → Shows seen m
    → Shows (journal qt cs seen) (run qt cs m)
unfolding run
run-Shows qt [] seen m s = s
run-Shows qt (c ∷ cs) seen m s =
    run-Shows qt cs (noted qt c seen) (step qt c m) (step-Shows qt c seen m s)

-- From a new object, over any calls, the operator is shown the newest 80 rows, oldest first, of the
-- events since the last reset: an event has a row unless it is of the stage HOST_WRITE, CONTROL_ACK or
-- CAN_TX_RAW, its level is not error and its command id is not a multiple of 25; a row holds the texts of
-- its event and the ids, where they are not 0, and its key is its number since that reset, modulo 2^64.
pub run-reset_rows :
    (qt : Qt) (cs : List Call)
    → ((run qt cs reset).model_rows ≡ newest 80 (journal qt cs []))
      × ((run qt cs reset).rows ≡ newest 80 (journal qt cs []))
unfolding reset
run-reset_rows qt cs =
    let s = run-Shows qt cs [] reset (record { kept = refl; model = refl; counted = refl }) in
    (s.model ∙ s.kept, s.kept)
