-- ===== src/Alarm/Groups.antt =====
-- The groups of alarms that AlarmManager of src/backend/AlarmManager.cpp keeps.
use Prim.Native.String.{String}
use vsm_field_workstation.Prelude.{
  ℕ, suc, ◌+◌, ◌≤◌, ◌≡◌, refl, sym, ap, ◌∙◌, subst, Bool, false, ◌||◌, Bool-cases, inl, inr, List,
  [], ◌∷◌, ◌++◌, if◌then◌else◌, arith, ltb, length, length-take, All, All-append, ◌is◌, is_iff,
}
use vsm_field_workstation.Foreign.{Qt}
use vsm_field_workstation.Alarm.{
  ValueAlarmResult, AlarmGroup, Board, has_group, remove_group, trimmed_groups, trimmed_history,
  fresh_group, now_text, is_news, updated_group, update_group, show_alarm,
}

module _ (Double : Type 0) where
  abbrev Groups : Type 0
  Groups = List (AlarmGroup Double)

  -- No two groups have one key.
  abbrev pub IsDistinct : Groups → Type 0
  IsDistinct [] = Unit
  IsDistinct (g ∷ gs) = (has_group Double g.key gs ≡ false) × IsDistinct gs

  abbrev pub IsShort : AlarmGroup Double → Type 0
  IsShort g = length g.history ≤ 32

  pub record IsValid (gs : Groups) : Type 0 where
    pub few : length gs ≤ 120
    pub distinct : IsDistinct gs
    pub short : All IsShort gs

  pub is_sym : (s t : String) → (s is t) ≡ false → (t is s) ≡ false
  is_sym s t e = elim (Bool-cases (t is s)) [
    | inl h ↦ absurd (ground (arith, e, (is_iff s t).1 (sym ((is_iff t s).0 h))))
    | inr h ↦ h
  ]

  pub has_group-remove :
      (k key : String) (gs : Groups)
      → has_group Double k gs ≡ false
      → has_group Double k (remove_group Double key gs) ≡ false
  unfolding has_group remove_group
  has_group-remove k key [] e = refl
  has_group-remove k key (g ∷ gs) e = elim (Bool-cases (g.key is key)) [
    | inl h ↦ rw h (ground (arith, e))
    | inr h ↦ rw h (ground (arith, e, has_group-remove k key gs (ground (arith, e))))
  ]

  length-remove_group :
      (key : String) (gs : Groups) → length (remove_group Double key gs) ≤ length gs
  unfolding remove_group
  length-remove_group key [] = omega arith
  length-remove_group key (g ∷ gs) = elim (Bool-cases (g.key is key)) [
    | inl h ↦ rw h (omega arith)
    | inr h ↦ rw h (omega (arith, length-remove_group key gs))
  ]

  remove_group-IsDistinct :
      (key : String) (gs : Groups) → IsDistinct gs → IsDistinct (remove_group Double key gs)
  unfolding remove_group
  remove_group-IsDistinct key [] v = v
  remove_group-IsDistinct key (g ∷ gs) v = elim (Bool-cases (g.key is key)) [
    | inl h ↦ rw h v.1
    | inr h ↦ rw h (has_group-remove g.key key gs v.0, remove_group-IsDistinct key gs v.1)
  ]

  remove_group-IsShort :
      (key : String) (gs : Groups) → All IsShort gs → All IsShort (remove_group Double key gs)
  unfolding remove_group
  remove_group-IsShort key [] v = v
  remove_group-IsShort key (g ∷ gs) v = elim (Bool-cases (g.key is key)) [
    | inl h ↦ rw h v.1
    | inr h ↦ rw h (v.0, remove_group-IsShort key gs v.1)
  ]

  pub remove_group-IsValid :
      (key : String) (gs : Groups) → IsValid gs → IsValid (remove_group Double key gs)
  remove_group-IsValid key gs v = record {
    few = omega (arith, v.few, length-remove_group key gs);
    distinct = remove_group-IsDistinct key gs v.distinct;
    short = remove_group-IsShort key gs v.short;
  }

  -- What is removed is gone.
  pub remove_group-gone :
      (key : String) (gs : Groups)
      → IsDistinct gs
      → has_group Double key (remove_group Double key gs) ≡ false
  unfolding has_group remove_group
  remove_group-gone key [] v = refl
  remove_group-gone key (g ∷ gs) v = elim (Bool-cases (g.key is key)) [
    | inl h ↦ rw h (subst (λ k. has_group Double k gs ≡ false) ((is_iff g.key key).0 h) v.0)
    | inr h ↦ rw h (ground (arith, h, remove_group-gone key gs v.1))
  ]

  pub has_group-append :
      (key : String) (gs : Groups) (x : AlarmGroup Double)
      → has_group Double key (gs ++ (x ∷ [])) ≡ (has_group Double key gs || (x.key is key))
  unfolding has_group
  has_group-append key [] x = ground arith
  has_group-append key (g ∷ gs) x = ground (arith, has_group-append key gs x)

  append-IsDistinct :
      (gs : Groups) (x : AlarmGroup Double)
      → IsDistinct gs
      → has_group Double x.key gs ≡ false
      → IsDistinct (gs ++ (x ∷ []))
  unfolding has_group
  append-IsDistinct [] x v e = (refl, tt)
  append-IsDistinct (g ∷ gs) x v e =
      let other : (g.key is x.key) ≡ false = ground (arith, e) in
      let later : has_group Double x.key gs ≡ false = ground (arith, e) in
      (
        has_group-append g.key gs x ∙ (rw (v.0, is_sym g.key x.key other) refl),
        append-IsDistinct gs x v.1 later,
      )

  length-trimmed_groups : (gs : Groups) → length (trimmed_groups Double gs) ≤ 120
  unfolding trimmed_groups
  length-trimmed_groups [] = omega arith
  length-trimmed_groups (g ∷ gs) = elim (Bool-cases (ltb 120 (suc (length gs)))) [
    | inl h ↦ rw h (length-trimmed_groups gs)
    | inr h ↦ rw h (ground (arith, h))
  ]

  trimmed_groups-IsDistinct : (gs : Groups) → IsDistinct gs → IsDistinct (trimmed_groups Double gs)
  unfolding trimmed_groups
  trimmed_groups-IsDistinct [] v = v
  trimmed_groups-IsDistinct (g ∷ gs) v = elim (Bool-cases (ltb 120 (suc (length gs)))) [
    | inl h ↦ rw h (trimmed_groups-IsDistinct gs v.1)
    | inr h ↦ rw h v
  ]

  trimmed_groups-IsShort : (gs : Groups) → All IsShort gs → All IsShort (trimmed_groups Double gs)
  unfolding trimmed_groups
  trimmed_groups-IsShort [] v = v
  trimmed_groups-IsShort (g ∷ gs) v = elim (Bool-cases (ltb 120 (suc (length gs)))) [
    | inl h ↦ rw h (trimmed_groups-IsShort gs v.1)
    | inr h ↦ rw h v
  ]

  pub has_group-trimmed :
      (key : String) (gs : Groups)
      → has_group Double key gs ≡ false
      → has_group Double key (trimmed_groups Double gs) ≡ false
  unfolding trimmed_groups has_group
  has_group-trimmed key [] e = e
  has_group-trimmed key (g ∷ gs) e = elim (Bool-cases (ltb 120 (suc (length gs)))) [
    | inl h ↦ rw h (has_group-trimmed key gs (ground (arith, e)))
    | inr h ↦ rw h e
  ]

  module _ (qt : Qt) (arg_two : String → String → String → String) (advanced : Bool)
      (info : ValueAlarmResult Double) (name source time : String) where
    abbrev updated : Groups → Groups
    updated gs = update_group Double qt arg_two advanced info name source time gs

    pub has_group-update :
        (key : String) (gs : Groups) → has_group Double key (updated gs) ≡ has_group Double key gs
    unfolding update_group has_group
    has_group-update key [] = refl
    has_group-update key (g ∷ gs) = elim (Bool-cases (g.key is info.alarm_key)) [
      | inl h ↦ rw h refl
      | inr h ↦ rw h (ap (λ b. (g.key is key) || b) (has_group-update key gs))
    ]

    length-update : (gs : Groups) → length (updated gs) ≡ length gs
    unfolding update_group
    length-update [] = refl
    length-update (g ∷ gs) = elim (Bool-cases (g.key is info.alarm_key)) [
      | inl h ↦ rw h refl
      | inr h ↦ rw h (ap suc (length-update gs))
    ]

    update-IsDistinct : (gs : Groups) → IsDistinct gs → IsDistinct (updated gs)
    unfolding update_group
    update-IsDistinct [] v = v
    update-IsDistinct (g ∷ gs) v = elim (Bool-cases (g.key is info.alarm_key)) [
      | inl h ↦ rw h (v.0, v.1)
      | inr h ↦ rw h (has_group-update g.key gs ∙ v.0, update-IsDistinct gs v.1)
    ]

    updated_group-IsShort :
        (g : AlarmGroup Double)
        → IsShort (updated_group Double qt arg_two advanced info name source time g)
    unfolding updated_group trimmed_history
    updated_group-IsShort g = omega (
      arith,
      length-take 32 (
          if is_news Double qt arg_two info g
          then arg_two "[%1] %2" (now_text Double qt arg_two time) info.message ∷ g.history
          else g.history),
    )

    update-IsShort : (gs : Groups) → All IsShort gs → All IsShort (updated gs)
    unfolding update_group
    update-IsShort [] v = v
    update-IsShort (g ∷ gs) v = elim (Bool-cases (g.key is info.alarm_key)) [
      | inl h ↦ rw h (updated_group-IsShort g, v.1)
      | inr h ↦ rw h (v.0, update-IsShort gs v.1)
    ]

    pub show_alarm-IsValid :
        (id : ℕ) (b : Board Double)
        → IsValid b.groups
        → IsValid (show_alarm Double qt arg_two id advanced info name source time b).groups
    unfolding show_alarm fresh_group
    show_alarm-IsValid id b v = elim (Bool-cases (has_group Double info.alarm_key b.groups)) [
      | inl h ↦ rw h record {
        few = omega (arith, v.few, length-update b.groups);
        distinct = update-IsDistinct b.groups v.distinct;
        short = update-IsShort b.groups v.short;
      }
      | inr h ↦ rw h record {
        few = length-trimmed_groups (
            b.groups
            ++ (fresh_group Double qt arg_two (b.alarm_sequence + 1) id info name source time
                ∷ []));
        distinct = trimmed_groups-IsDistinct _ (append-IsDistinct b.groups _ v.distinct h);
        short = trimmed_groups-IsShort _ (All-append IsShort b.groups _ v.short (omega arith));
      }
    ]
