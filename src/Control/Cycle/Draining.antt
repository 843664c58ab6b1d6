-- ===== src/Control/Cycle/Draining.antt =====
-- How a burst is drained: one frame at a call, or all at once.
use vsm_field_workstation.Prelude.{
  ℕ, zero, suc, ◌+◌, ◌-◌, ◌≤◌, ◌<◌, ◌≡◌, refl, sym, ap, ◌∙◌, ◌⊎◌, inl, inr, Bool, true, false, ◌&&◌,
  Bool-cases, List, [], ◌∷◌, ◌++◌, append_assoc, arith, ltb, leb, if◌then◌else◌, length,
  length-append, min, get_or, drop, length-drop, subst,
}
use vsm_field_workstation.HostTx.{is_empty}
use vsm_field_workstation.Control.Cycle.{
  HostFrameIntent, CycleResult, no_result, no_intent, Pending, clear_pending, drain_loop,
  drain_pending_frames,
}

abbrev pub left : Pending → List HostFrameIntent
left p = drop p.index p.frames

abbrev IsIdle : Pending → Type 0
IsIdle p = (p.frames ≡ []) × ((p.index ≡ 0) × (p.sending ≡ false))

-- A burst under way has a frame to send; otherwise nothing is kept.
abbrev pub IsPaced : Pending → Type 0
IsPaced p = IsIdle p ⊎ ((p.index < length p.frames) × (p.sending ≡ true))

abbrev pub pauses : Bool → ℕ → Bool
pauses respect_frame_gap gap_ms = respect_frame_gap && ltb 0 gap_ms

drop-get_or :
    (xs : List HostFrameIntent) (i : ℕ) (d : HostFrameIntent)
    → i < length xs
    → drop i xs ≡ get_or xs i d ∷ drop (i + 1) xs
drop-get_or [] i d h = absurd (omega arith)
drop-get_or (x ∷ xs) zero d h = refl
drop-get_or (x ∷ xs) (suc i) d h =
    let e : suc i + 1 ≡ suc (i + 1) = omega arith in rw e (drop-get_or xs i d (omega arith))

drop_all : (xs : List HostFrameIntent) (i : ℕ) → length xs ≤ i → drop i xs ≡ []
drop_all [] zero h = refl
drop_all [] (suc i) h = refl
drop_all (x ∷ xs) zero h = absurd (omega arith)
drop_all (x ∷ xs) (suc i) h = drop_all xs i (omega arith)

-- What a run of the loop does, from the burst `p` with the result so far `past`, to `q` and `now`.
pub record Drains (pausing : Bool) (gap_ms : ℕ) (p : Pending) (past : CycleResult) (q : Pending)
    (now : CycleResult) : Type 0 where
  pub conserves : now.frames ++ left q ≡ past.frames ++ left p
  pub paced : IsPaced q
  pub gap : now.schedule_gap ≡ q.sending
  pub amount : (q.sending ≡ false) ⊎ ((pausing ≡ true) × (now.gap_ms ≡ gap_ms))
  pub one : pausing ≡ true → length now.frames ≡ suc (length past.frames)

drain_loop-Drains :
    (rounds : ℕ) (respects : Bool) (gap_ms : ℕ) (p : Pending) (past : CycleResult)
    → p.index < length p.frames
    → p.sending ≡ true
    → length p.frames - p.index ≤ rounds
    → past.schedule_gap ≡ false
    → Drains
        (pauses respects gap_ms)
        gap_ms
        p
        past
        (drain_loop rounds respects gap_ms p past).0
        (drain_loop rounds respects gap_ms p past).1
unfolding drain_loop clear_pending
drain_loop-Drains zero respects gap_ms p past inside sending enough quiet = absurd (omega arith)
drain_loop-Drains (suc rounds) respects gap_ms p past inside sending enough quiet =
    let x = get_or p.frames p.index no_intent in
    let this : drop p.index p.frames ≡ x ∷ drop (p.index + 1) p.frames =
      drop-get_or p.frames p.index no_intent inside in
    let t : ltb p.index (length p.frames) ≡ true = ground arith in
    let put : (past.frames ++ (x ∷ [])) ++ drop (p.index + 1) p.frames ≡ past.frames ++ left p =
      append_assoc past.frames (x ∷ []) (drop (p.index + 1) p.frames)
      ∙ ap (λ xs. past.frames ++ xs) (sym this) in
    elim (Bool-cases (leb (length p.frames) (p.index + 1))) [
      | inl e ↦ rw t (
          rw e record {
            conserves =
                ap (λ xs. (past.frames ++ (x ∷ [])) ++ xs)
                  (sym (drop_all p.frames (p.index + 1) (ground arith)))
                ∙ put;
            paced = inl (refl, (refl, refl));
            gap = quiet;
            amount = inl refl;
            one = λ f. ground (arith, length-append past.frames (x ∷ []));
          })
      | inr e ↦ elim (Bool-cases (pauses respects gap_ms)) [
        | inl f ↦ rw t (
            rw e (
              rw f record {
                conserves = put;
                paced = inr (ground arith, sending);
                gap = sym sending;
                amount = inr (refl, refl);
                one = λ f. ground (arith, length-append past.frames (x ∷ []));
              }))
        | inr f ↦
            let next =
              drain_loop-Drains rounds respects gap_ms (record p { index = p.index + 1 })
                (record past { frames = past.frames ++ (x ∷ []) }) (ground arith) sending
                (ground arith) quiet in
            rw t (
              rw e (
                rw f record {
                  conserves = next.conserves ∙ put;
                  paced = next.paced;
                  gap = next.gap;
                  amount = elim next.amount [ inl a ↦ inl a | inr (a, b) ↦ absurd (ground arith) ];
                  one = λ g. absurd (ground arith);
                }))
      ]
    ]

-- What one call of drainPendingFrames does.
pub record Advances (pausing : Bool) (gap_ms : ℕ) (p : Pending) (q : Pending) (now : CycleResult)
    : Type 0 where
  pub conserves : now.frames ++ left q ≡ left p
  pub paced : IsPaced q
  pub gap : now.schedule_gap ≡ q.sending
  pub amount : (q.sending ≡ false) ⊎ ((pausing ≡ true) × (now.gap_ms ≡ gap_ms))
  pub one : pausing ≡ true → length now.frames ≡ min 1 (length (left p))

is_empty_nonempty : (xs : List HostFrameIntent) → 0 < length xs → is_empty xs ≡ false
is_empty_nonempty [] h = absurd (omega arith)
is_empty_nonempty (x ∷ xs) h = refl

pub length-drop_left : (xs : List HostFrameIntent) (i : ℕ) → i < length xs → 0 < length (drop i xs)
length-drop_left xs i h = ground (arith, length-drop i xs)

abbrev idle : Pending
idle = record { frames = []; index = 0; sending = false }

idle-Advances :
    (respects : Bool) (gap_ms : ℕ)
    → Advances
        (pauses respects gap_ms)
        gap_ms
        idle
        (drain_pending_frames respects gap_ms idle).0
        (drain_pending_frames respects gap_ms idle).1
unfolding drain_pending_frames drain_loop
idle-Advances respects gap_ms = record {
  conserves = refl;
  paced = inl (refl, (refl, refl));
  gap = refl;
  amount = inl refl;
  one = λ f. refl;
}

-- A pending state is settled: `sending` already says whether frames are kept.
settled :
    (q : Pending) → IsPaced q → (if is_empty q.frames then record q { sending = false } else q) ≡ q
settled q (inl (e, (i, s))) = cc (e, s)
settled q (inr (h, s)) = rw (is_empty_nonempty q.frames (omega arith)) refl

-- From a pending state the class can be in, a drain sends the next frames of the burst, in order: with
-- a frame gap exactly one (none when none is left), without one all. A timer for the gap is
-- asked for exactly when frames remain, and with the configured gap.
pub drain_pending_frames-Advances :
    (respects : Bool) (gap_ms : ℕ) (p : Pending)
    → IsPaced p
    → Advances
        (pauses respects gap_ms)
        gap_ms
        p
        (drain_pending_frames respects gap_ms p).0
        (drain_pending_frames respects gap_ms p).1
unfolding drain_pending_frames
drain_pending_frames-Advances respects gap_ms p (inl (e, (i, s))) =
    let same : idle ≡ p = cc (e, i, s) in
    subst
      (λ r.
        Advances (pauses respects gap_ms) gap_ms r (drain_pending_frames respects gap_ms r).0
          (drain_pending_frames respects gap_ms r).1)
      same (idle-Advances respects gap_ms)
drain_pending_frames-Advances respects gap_ms p (inr (inside, sending)) =
    let done =
      drain_loop-Drains (suc (length p.frames)) respects gap_ms p no_result inside sending
        (omega arith) refl in
    let same =
      settled (drain_loop (suc (length p.frames)) respects gap_ms p no_result).0 done.paced in
    rw same record {
      conserves = done.conserves;
      paced = done.paced;
      gap = done.gap;
      amount = done.amount;
      one = λ f. ground (arith, done.one f, length-drop_left p.frames p.index inside);
    }
