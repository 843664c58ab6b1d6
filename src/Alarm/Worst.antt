-- ===== src/Alarm/Worst.antt =====
-- The level of a page, of src/backend/LevelState.cpp.
use vsm_field_workstation.Prelude.{
  ℕ, ◌+◌, ◌≤◌, ◌<◌, ◌≡◌, refl, ◌⊎◌, false, Bool-cases, inl, inr, arith, ltb, ltb→lt,
}
use vsm_field_workstation.Alarm.{rank_for_level, color_for_level, LevelSummary, best_of, merge}

-- The summary shows the level and the text of this one.
abbrev pub Shows : LevelSummary → LevelSummary → Type 0
Shows s out =
    (out.level ≡ s.level) × ((out.summary ≡ s.summary) × (out.color ≡ color_for_level s.level))

abbrev pub rank : LevelSummary → ℕ
rank s = rank_for_level s.level

not_ltb : (a b : ℕ) → ltb a b ≡ false → b ≤ a
not_ltb a b e = ground arith

lt_le : (a b c : ℕ) → a < b → c ≤ a → c < b
lt_le a b c h k = omega arith

lt_lt : (a b c : ℕ) → a < b → b < c → a < c
lt_lt a b c h k = omega arith

-- The count of merge is the sum of the three; it shows the level of the highest rank, and of two of one
-- rank that of the earlier: the timing before the values, and these before the alarms.
pub merge-Shows :
    (timing value alarm : LevelSummary)
    → ((merge timing value alarm).active_count
        ≡ timing.active_count + value.active_count + alarm.active_count)
      × ((Shows timing (merge timing value alarm)
            × ((rank value ≤ rank timing) × (rank alarm ≤ rank timing)))
          ⊎ ((Shows value (merge timing value alarm)
                × ((rank timing < rank value) × (rank alarm ≤ rank value)))
              ⊎ (Shows alarm (merge timing value alarm)
                  × ((rank timing < rank alarm) × (rank value < rank alarm)))))
unfolding merge best_of
merge-Shows timing value alarm =
    let t : ℕ = rank timing in
    let v : ℕ = rank value in
    let a : ℕ = rank alarm in
    elim (Bool-cases (ltb (rank timing) (rank value))) [
      | inl e ↦
          let tv = ltb→lt t v e in
          elim (Bool-cases (ltb (rank value) (rank alarm))) [
            | inl h ↦
                let va = ltb→lt v a h in
                rw (e, h) (refl, inr (inr ((refl, (refl, refl)), (lt_lt t v a tv va, va))))
            | inr h ↦ rw (e, h) (refl, inr (inl ((refl, (refl, refl)), (tv, not_ltb v a h))))
          ]
      | inr e ↦
          let vt = not_ltb t v e in
          elim (Bool-cases (ltb (rank timing) (rank alarm))) [
            | inl h ↦
                let ta = ltb→lt t a h in
                rw (e, h) (refl, inr (inr ((refl, (refl, refl)), (ta, lt_le t a v ta vt))))
            | inr h ↦ rw (e, h) (refl, inl ((refl, (refl, refl)), (vt, not_ltb t a h)))
          ]
    ]
