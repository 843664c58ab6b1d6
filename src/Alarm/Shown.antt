-- ===== src/Alarm/Shown.antt =====
-- What syncValueAlarm of src/backend/AlarmManager.cpp leaves, and its groups over any calls.
use Prim.Native.String.{String}
use vsm_field_workstation.Prelude.{
  ℕ, suc, ◌+◌, ◌≡◌, refl, ◌∙◌, Bool, true, false, not, ◌&&◌, Bool-cases, ◌⊎◌, inl, inr, Option,
  none, some, List, [], ◌∷◌, ◌++◌, if◌then◌else◌, arith, ltb, length, ◌is◌, is_iff,
}
use vsm_field_workstation.Prelude.Int.{ℤ, eq_ℤ}
use vsm_field_workstation.Foreign.{Qt}
use vsm_field_workstation.HostTx.{is_blank}
use vsm_field_workstation.Alarm.{
  severity_color, severity_rank, ValueAlarmResult, AlarmGroup, Tracker, Board, has_group,
  resolve_value_alarm, trimmed_groups, fresh_group, is_news, updated_group, update_group,
  leave_other, show_alarm, sync_value_alarm,
}
use vsm_field_workstation.Alarm.Groups.{
  IsDistinct, IsValid, is_sym, remove_group-IsValid, remove_group-gone, has_group-append,
  has_group-trimmed, has_group-update, show_alarm-IsValid,
}

module _ (Double : Type 0) (qt : Qt) (arg_two : String → String → String → String) where
  -- The calls, for any CAN ids: each has its own tracker.
  pub data Call : Type 0 where
    resolves : Tracker Double → Call
    syncs : ℕ → ValueAlarmResult Double → String → String → String → ℤ → Tracker Double → Call

  abbrev pub step : Call → Board Double → Board Double
  step (resolves t) b = (resolve_value_alarm Double t b).1
  step (syncs id info name source time seen t) b =
      (sync_value_alarm Double qt arg_two id info name source time seen t b).1

  abbrev pub run : List Call → Board Double → Board Double
  run [] b = b
  run (c ∷ cs) b = run cs (step c b)

  resolve_value_alarm-IsValid :
      (t : Tracker Double) (b : Board Double)
      → IsValid Double b.groups
      → IsValid Double (resolve_value_alarm Double t b).1.groups
  unfolding resolve_value_alarm
  resolve_value_alarm-IsValid t b v = elim (Bool-cases (is_blank t.active_value_alarm_key)) [
    | inl h ↦ rw h v
    | inr h ↦ rw h (remove_group-IsValid Double t.active_value_alarm_key b.groups v)
  ]

  leave_other-IsValid :
      (info : ValueAlarmResult Double) (t : Tracker Double) (b : Board Double)
      → IsValid Double b.groups
      → IsValid Double (leave_other Double qt arg_two info t b).groups
  unfolding leave_other
  leave_other-IsValid info t b v =
      elim (Bool-cases (
        not (is_blank t.active_value_alarm_key)
        && not (t.active_value_alarm_key is info.alarm_key))) [
          | inl h ↦ rw h (resolve_value_alarm-IsValid t b v)
          | inr h ↦ rw h v
        ]

  step-IsValid :
      (c : Call) (b : Board Double) → IsValid Double b.groups → IsValid Double (step c b).groups
  unfolding sync_value_alarm
  step-IsValid (resolves t) b v = resolve_value_alarm-IsValid t b v
  step-IsValid (syncs id info name source time seen t) b v =
      show_alarm-IsValid Double qt arg_two (not (eq_ℤ t.last_value_alarm_seen_ms seen)) info name
        source time id _ (leave_other-IsValid info t b v)

  run-IsValid :
      (cs : List Call) (b : Board Double)
      → IsValid Double b.groups
      → IsValid Double (run cs b).groups
  run-IsValid [] b v = v
  run-IsValid (c ∷ cs) b v = run-IsValid cs (step c b) (step-IsValid c b v)

  abbrev pub new_board : Board Double
  new_board = record { groups = []; alarm_sequence = 0; rows_dirty = false }

  -- From no groups, over any calls for any CAN ids, there are at most 120 groups, no two of one key, and
  -- each has at most 32 lines of history.
  pub run-new_board-IsValid : (cs : List Call) → IsValid Double (run cs new_board).groups
  run-new_board-IsValid cs =
      run-IsValid cs new_board (record { few = omega arith; distinct = tt; short = tt })

  abbrev pub find_group : String → List (AlarmGroup Double) → Option (AlarmGroup Double)
  find_group key [] = none
  find_group key (g ∷ gs) = let later = find_group key gs in if g.key is key then some g else later

  -- The group says what the alarm says.
  pub record Says (info : ValueAlarmResult Double) (g : AlarmGroup Double) : Type 0 where
    pub key : g.key ≡ info.alarm_key
    pub severity : g.severity ≡ info.severity
    pub color : g.severity_color ≡ severity_color info.severity
    pub rank : g.severity_rank ≡ severity_rank info.severity
    pub message : g.message ≡ info.message
    pub metric : g.metric_text ≡ info.metric_text
    pub gauge : g.gauge_pct ≡ info.gauge_pct
    pub active : g.active ≡ true

  news : (b : Bool) {x y : String} → (b ≡ false → y ≡ x) → (if b then x else y) ≡ x
  news true h = refl
  news false h = h refl

  updated_group-Says :
      (advanced : Bool) (info : ValueAlarmResult Double) (name source time : String)
      (g : AlarmGroup Double)
      → (g.key is info.alarm_key) ≡ true
      → Says info (updated_group Double qt arg_two advanced info name source time g)
  unfolding updated_group is_news
  updated_group-Says advanced info name source time g e = record {
    key = (is_iff g.key info.alarm_key).0 e;
    severity = refl;
    color = refl;
    rank = refl;
    message =
        news (is_news Double qt arg_two info g)
          (λ h. ground (arith, h, is_iff g.message info.message));
    metric = refl;
    gauge = refl;
    active = refl;
  }

  -- A group of the key is shown, as the alarm says.
  abbrev pub Shown : ValueAlarmResult Double → List (AlarmGroup Double) → Type 0
  Shown info gs = (g : AlarmGroup Double) × (find_group info.alarm_key gs ≡ some g) × Says info g

  update_group-Shown :
      (advanced : Bool) (info : ValueAlarmResult Double) (name source time : String)
      (gs : List (AlarmGroup Double))
      → has_group Double info.alarm_key gs ≡ true
      → Shown info (update_group Double qt arg_two advanced info name source time gs)
  unfolding update_group has_group
  update_group-Shown advanced info name source time [] e = absurd (ground (arith, e))
  update_group-Shown advanced info name source time (g ∷ gs) e =
      elim (Bool-cases (g.key is info.alarm_key)) [
        | inl h ↦
            let new = updated_group Double qt arg_two advanced info name source time g in
            let says = updated_group-Says advanced info name source time g h in
            rw h (new, rw ((is_iff new.key info.alarm_key).1 says.key) refl, says)
        | inr h ↦
            let (new, found, says) =
              update_group-Shown advanced info name source time gs (ground (arith, e, h)) in
            rw h (new, rw h found, says)
      ]

  find_last :
      (key : String) (gs : List (AlarmGroup Double)) (x : AlarmGroup Double)
      → has_group Double key gs ≡ false
      → (x.key is key) ≡ true
      → find_group key (gs ++ (x ∷ [])) ≡ some x
  unfolding has_group
  find_last key [] x e h = rw h refl
  find_last key (g ∷ gs) x e h =
      let other : (g.key is key) ≡ false = ground (arith, e) in
      rw other (find_last key gs x (ground (arith, e)) h)

  find_trimmed :
      (key : String) (gs : List (AlarmGroup Double)) (x : AlarmGroup Double)
      → has_group Double key gs ≡ false
      → (x.key is key) ≡ true
      → find_group key (trimmed_groups Double (gs ++ (x ∷ []))) ≡ some x
  unfolding trimmed_groups has_group
  find_trimmed key [] x e h = rw h refl
  find_trimmed key (g ∷ gs) x e h =
      let other : (g.key is key) ≡ false = ground (arith, e) in
      elim (Bool-cases (ltb 120 (suc (length (gs ++ (x ∷ [])))))) [
        | inl more ↦ rw more (find_trimmed key gs x (ground (arith, e)) h)
        | inr few ↦ rw (few, other) (find_last key gs x (ground (arith, e)) h)
      ]

  show_alarm-Shown :
      (id : ℕ) (advanced : Bool) (info : ValueAlarmResult Double) (name source time : String)
      (b : Board Double)
      → Shown info (show_alarm Double qt arg_two id advanced info name source time b).groups
  unfolding show_alarm fresh_group
  show_alarm-Shown id advanced info name source time b =
      elim (Bool-cases (has_group Double info.alarm_key b.groups)) [
        | inl h ↦ rw h (update_group-Shown advanced info name source time b.groups h)
        | inr h ↦
            let new =
              fresh_group Double qt arg_two (b.alarm_sequence + 1) id info name source time in
            rw h (
              new,
              find_trimmed info.alarm_key b.groups new h
                  ((is_iff info.alarm_key info.alarm_key).1 refl),
              record {
                key = refl;
                severity = refl;
                color = refl;
                rank = refl;
                message = refl;
                metric = refl;
                gauge = refl;
                active = refl;
              },
            )
      ]

  -- A key that no group has stays so, if the alarm has another.
  show_alarm-gone :
      (id : ℕ) (advanced : Bool) (info : ValueAlarmResult Double) (name source time old : String)
      (b : Board Double)
      → has_group Double old b.groups ≡ false
      → (info.alarm_key is old) ≡ false
      → has_group Double old
          (show_alarm Double qt arg_two id advanced info name source time b).groups
        ≡ false
  unfolding show_alarm fresh_group
  show_alarm-gone id advanced info name source time old b e other =
      elim (Bool-cases (has_group Double info.alarm_key b.groups)) [
        | inl h ↦
            rw h
              (has_group-update Double qt arg_two advanced info name source time old b.groups ∙ e)
        | inr h ↦
            let new =
              fresh_group Double qt arg_two (b.alarm_sequence + 1) id info name source time in
            rw h (
              has_group-trimmed Double old (b.groups ++ (new ∷ []))
                (has_group-append Double old b.groups new ∙ (rw (e, other) refl)))
      ]

  left :
      (info : ValueAlarmResult Double) (t : Tracker Double) (b : Board Double)
      → IsDistinct Double b.groups
      → is_blank t.active_value_alarm_key ≡ false
      → (t.active_value_alarm_key is info.alarm_key) ≡ false
      → has_group Double t.active_value_alarm_key (leave_other Double qt arg_two info t b).groups
        ≡ false
  unfolding leave_other resolve_value_alarm
  left info t b v set_ other =
      rw (set_, other) (remove_group-gone Double t.active_value_alarm_key b.groups v)

  -- On groups of which no two have one key: after a call of syncValueAlarm, the group of the alarm's key
  -- is active and has the severity, colour, rank, message, metric and gauge of the alarm; and unless no
  -- alarm or the same one was active for the CAN id, no group of the alarm that was active is left.
  pub sync_value_alarm-Shown :
      (id : ℕ) (info : ValueAlarmResult Double) (name source time : String) (seen : ℤ)
      (t : Tracker Double) (b : Board Double)
      → IsDistinct Double b.groups
      → Shown info (sync_value_alarm Double qt arg_two id info name source time seen t b).1.groups
        × ((is_blank t.active_value_alarm_key ≡ true)
            ⊎ (((t.active_value_alarm_key is info.alarm_key) ≡ true)
                ⊎ (has_group Double t.active_value_alarm_key
                      (sync_value_alarm Double qt arg_two id info name source time seen t
                        b).1.groups
                    ≡ false)))
  unfolding sync_value_alarm
  sync_value_alarm-Shown id info name source time seen t b v =
      let advanced = not (eq_ℤ t.last_value_alarm_seen_ms seen) in
      let old = t.active_value_alarm_key in
      let before = leave_other Double qt arg_two info t b in
      (
        show_alarm-Shown id advanced info name source time before,
        elim (Bool-cases (is_blank old)) [
          | inl blank ↦ inl blank
          | inr set_ ↦ elim (Bool-cases (old is info.alarm_key)) [
            | inl same ↦ inr (inl same)
            | inr other ↦ inr (
                inr (
                  show_alarm-gone id advanced info name source time old before
                    (left info t b v set_ other) (is_sym Double old info.alarm_key other)))
          ]
        ],
      )
