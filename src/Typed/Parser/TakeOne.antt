-- ===== src/Typed/Parser/TakeOne.antt =====
-- takeOne as a whole.
use vsm_field_workstation.Prelude.{
  ℕ, zero, suc, ◌+◌, ◌-◌, ◌≤◌, ◌<◌, ◌≡◌, refl, sym, ap, inl, inr, Bool, true, false, Option, none,
  some, arith, ltb, if◌then◌else◌, Bool-cases, length, length-drop, All-drop, subst,
}
use vsm_field_workstation.Wire.{IsByte, IsBytes}
use vsm_field_workstation.Typed.{TypedRecord}
use vsm_field_workstation.Typed.Parser.{
  Parser, Round, returns, continues, view, buffered_bytes, discard, frame_round, take_round,
  find_sof, scan_sof, take_loop, take_one,
}
use vsm_field_workstation.Typed.Parser.Outcomes.{
  Same-refl, Advance, Outcome, RoundSpec, Advance-refl, Outcome-trans, RoundSpec-trans,
}
use vsm_field_workstation.Typed.Parser.Rounds.{discard-Advance, frame_round-RoundSpec}
use vsm_field_workstation.Typed.Parser.View.{buffered-length}
use vsm_field_workstation.Typed.Parser.Skips.{Skipped, Starts, SofSpec, scan_sof-SofSpec}
use mathlib.Core.Option

IsBytes-after :
    (k : ℕ) (p q : Parser) → IsBytes (view p.window) → Advance k p q → IsBytes (view q.window)
IsBytes-after k p q h adv = subst IsBytes (sym adv.left) (All-drop IsByte k (view p.window) h)

skip_to :
    (k : ℕ) (p : Parser)
    → Skipped k (view p.window)
    → k ≤ length (view p.window)
    → (test : Bool) → (test ≡ false → k ≡ 0)
    → Advance k p (if test then discard k p else p)
skip_to k p skipped room true zero_if = discard-Advance k p p refl refl (Same-refl p) skipped room
skip_to k p skipped room false zero_if = rw (zero_if refl) (Advance-refl p)

after_search :
    (p : Parser) (o : Option ℕ)
    → IsBytes (view p.window)
    → 11 ≤ length (view p.window)
    → SofSpec (view p.window) o
    → RoundSpec p (elim (Option.map (λ i. p.window.buffer_offset + i) o) [
      | none ↦ returns none (
          if ltb 0 (buffered_bytes p.window - 1)
          then discard (buffered_bytes p.window - 1) p
          else p)
      | some sof ↦
          frame_round
            (if ltb p.window.buffer_offset sof then discard (sof - p.window.buffer_offset) p else p)
    ])
after_search p none bytes room skipped =
    (k, adv, inl (omega (arith, ap (length {A = ℕ}) adv.left, length-drop k (view p.window), size)))
  where
    size : buffered_bytes p.window ≡ length (view p.window)
    size = buffered-length p.window

    k : ℕ
    k = buffered_bytes p.window - 1

    adv : Advance k p (if ltb 0 k then discard k p else p)
    adv =
        skip_to k p (λ j h. skipped j (omega (arith, size))) (omega (arith, size)) (ltb 0 k)
          (λ e. ground arith)
after_search p (some i) bytes room (skipped, starts, inside) =
    let offset : ℕ = p.window.buffer_offset in
    let e : offset + i - offset ≡ i = omega arith in
    let m : Parser = if ltb offset (offset + i) then discard i p else p in
    let adv : Advance i p m =
      skip_to i p skipped (omega arith) (ltb offset (offset + i)) (λ x. ground arith) in
    rw e (
      RoundSpec-trans i p m adv (frame_round m) (
        frame_round-RoundSpec m (subst Starts (sym adv.left) starts)
          (IsBytes-after i p m bytes adv)))

take_round-RoundSpec : (p : Parser) → IsBytes (view p.window) → RoundSpec p (take_round p)
unfolding take_round find_sof
take_round-RoundSpec p bytes = elim (Bool-cases (ltb (buffered_bytes p.window) 11)) [
  | inl short ↦ rw short (0, Advance-refl p, inl (ground (arith, buffered-length p.window)))
  | inr long ↦ rw long (
      after_search p (scan_sof (view p.window)) bytes (ground (arith, buffered-length p.window))
        (scan_sof-SofSpec (view p.window)))
]

-- What the whole call answers, and that it does.
abbrev Answers : Parser → Option (Option TypedRecord × Parser) → Type 0
Answers p none = ⊥
Answers p (some (o, q)) = Outcome p o q

Answers-trans :
    (k : ℕ) (p m : Parser) (a : Option (Option TypedRecord × Parser))
    → Advance k p m
    → Answers m a
    → Answers p a
Answers-trans k p m none adv h = h
Answers-trans k p m (some (o, q)) adv h = Outcome-trans k p m adv o q h

take_loop-Answers :
    (fuel : ℕ) (p : Parser)
    → length (view p.window) < fuel
    → IsBytes (view p.window)
    → Answers p (take_loop fuel p)
unfolding take_loop
take_loop-Answers zero p enough bytes = absurd (omega arith)
take_loop-Answers (suc fuel) p enough bytes =
    after (take_round p) (take_round-RoundSpec p bytes) (take_loop-Answers fuel)
  where
    after :
        (o : Round)
        → RoundSpec p o
        → ((q : Parser)
            → length (view q.window) < fuel
            → IsBytes (view q.window)
            → Answers q (take_loop fuel q))
        → Answers p (elim o [ returns r q ↦ some (r, q) | continues q ↦ take_loop fuel q ])
    after (returns r q) h later = h
    after (continues q) (k, pos, adv) later = Answers-trans k p q _ adv (
        later q
          (omega (arith, ap (length {A = ℕ}) adv.left, length-drop k (view p.window), adv.room))
          (IsBytes-after k p q bytes adv))

-- The call returns. If it returns no record, it dropped k bytes at none of which a frame begins,
-- whatever bytes come later, and what stays is too short for a frame or begins one that is not
-- complete. If it returns a record, it dropped k such bytes, the record's bytes stood next and are
-- gone, and they are the frame of its fields. Either way the k bytes were counted (modulo 2 ^ 64);
-- a record is counted with its sequence gap and version, and nothing else changes the sequence state.
pub take_one-Outcome :
    (p : Parser)
    → IsBytes (view p.window)
    → (o : Option TypedRecord) × (q : Parser) × (take_one p ≡ some (o, q)) × Outcome p o q
unfolding take_one
take_one-Outcome p bytes = out (take_one p) (
    take_loop-Answers (suc (buffered_bytes p.window)) p (omega (arith, buffered-length p.window))
      bytes)
  where
    out :
        (a : Option (Option TypedRecord × Parser))
        → Answers p a
        → (o : Option TypedRecord) × (q : Parser) × (a ≡ some (o, q)) × Outcome p o q
    out none h = absurd h
    out (some (o, q)) h = (o, q, refl, h)
