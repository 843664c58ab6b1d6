-- ===== src/Typed/Parser/Outcomes.antt =====
-- What takeOne may answer: the statements about a round and about the whole loop, and how the rounds
-- of one call join.
use vsm_field_workstation.Prelude.{
  ℕ, ◌+◌, ◌%◌, ◌^◌, ◌≤◌, ◌<◌, ◌≡◌, refl, sym, ap, ◌∙◌, ◌⊎◌, true, not, Option, none, some, List,
  ◌++◌, arith, ◌==◌, if◌then◌else◌, length, drop, drop-drop, length-drop, add_u, ◌&&◌,
}
use vsm_field_workstation.Wire.{read_u16_le}
use vsm_field_workstation.Typed.{TypedRecord}
use vsm_field_workstation.Typed.Frame.{IsRecord}
use vsm_field_workstation.Typed.Parser.{Parser, Round, returns, continues, view}
use vsm_field_workstation.Typed.Parser.Skips.{Skipped, Starts, Skipped-zero, Skipped-add}

-- The sequence state and the counters of records are as they were.
pub record Same (p q : Parser) : Type 0 where
  pub frames : q.counters.frames ≡ p.counters.frames
  pub seq_gaps : q.counters.seq_gaps ≡ p.counters.seq_gaps
  pub version_warnings : q.counters.version_warnings ≡ p.counters.version_warnings
  pub have_last_seq : q.have_last_seq ≡ p.have_last_seq
  pub last_seq : q.last_seq ≡ p.last_seq

-- The record was counted once, under its version and its sequence number.
pub record Noted (p q : Parser) (r : TypedRecord) : Type 0 where
  pub frames : q.counters.frames ≡ add_u 64 p.counters.frames 1
  pub seq_gaps : q.counters.seq_gaps ≡ (
      if p.have_last_seq && not (r.header.seq == (p.last_seq + 1) % 2 ^ 16)
      then add_u 64 p.counters.seq_gaps 1
      else p.counters.seq_gaps)
  pub version_warnings : q.counters.version_warnings ≡ (
      if r.header.version == 1
      then p.counters.version_warnings
      else add_u 64 p.counters.version_warnings 1)
  pub have_last_seq : q.have_last_seq ≡ true
  pub last_seq : q.last_seq ≡ r.header.seq

-- k bytes were dropped: no frame began among them, and they were counted (modulo 2 ^ 64).
pub record Advance (k : ℕ) (p q : Parser) : Type 0 where
  pub skipped : Skipped k (view p.window)
  pub room : k ≤ length (view p.window)
  pub left : view q.window ≡ drop k (view p.window)
  pub counted : q.counters.bytes_dropped % 2 ^ 64 ≡ (p.counters.bytes_dropped + k) % 2 ^ 64
  pub same : Same p q

-- Too short for any frame, or the beginning of one whose length is announced.
abbrev pub Waiting : List ℕ → Type 0
Waiting xs =
    (length xs < 11) ⊎ (Starts xs × (read_u16_le xs 7 ≤ 4096) × (length xs < 11 + read_u16_le xs 7))

pub record Found (k : ℕ) (p q : Parser) (r : TypedRecord) : Type 0 where
  pub skipped : Skipped k (view p.window)
  pub split : drop k (view p.window) ≡ r.frame_bytes ++ view q.window
  pub is_record : IsRecord r
  pub counted : q.counters.bytes_dropped % 2 ^ 64 ≡ (p.counters.bytes_dropped + k) % 2 ^ 64
  pub noted : Noted p q r

abbrev pub Outcome : Parser → Option TypedRecord → Parser → Type 0
Outcome p none q = (k : ℕ) × Advance k p q × Waiting (view q.window)
Outcome p (some r) q = (k : ℕ) × Found k p q r

abbrev pub RoundSpec : Parser → Round → Type 0
RoundSpec p (returns o q) = Outcome p o q
RoundSpec p (continues q) = (k : ℕ) × (0 < k) × Advance k p q

pub Same-refl : (p : Parser) → Same p p
Same-refl p = record {
  frames = refl;
  seq_gaps = refl;
  version_warnings = refl;
  have_last_seq = refl;
  last_seq = refl;
}

Same-trans : (p m q : Parser) → Same p m → Same m q → Same p q
Same-trans p m q a b = record {
  frames = b.frames ∙ a.frames;
  seq_gaps = b.seq_gaps ∙ a.seq_gaps;
  version_warnings = b.version_warnings ∙ a.version_warnings;
  have_last_seq = b.have_last_seq ∙ a.have_last_seq;
  last_seq = b.last_seq ∙ a.last_seq;
}

Noted-trans : (p m q : Parser) (r : TypedRecord) → Same p m → Noted m q r → Noted p q r
Noted-trans p m q r a b = record {
  frames = b.frames ∙ ap (λ (k : ℕ). add_u 64 k 1) a.frames;
  seq_gaps = rw (← a.have_last_seq, ← a.last_seq, ← a.seq_gaps) b.seq_gaps;
  version_warnings = rw (← a.version_warnings) b.version_warnings;
  have_last_seq = b.have_last_seq;
  last_seq = b.last_seq;
}

pub Advance-refl : (p : Parser) → Advance 0 p p
Advance-refl p = record {
  skipped = Skipped-zero (view p.window);
  room = omega arith;
  left = refl;
  counted = omega arith;
  same = Same-refl p;
}

module _ (j : ℕ) (p m : Parser) (first : Advance j p m) where
  both : (k : ℕ) → Skipped k (view m.window) → Skipped (j + k) (view p.window)
  both k s = Skipped-add j k (view p.window) first.skipped (rw first.left at s)

  pub Advance-trans : (k : ℕ) (q : Parser) → Advance k m q → Advance (j + k) p q
  Advance-trans k q second = record {
    skipped = both k second.skipped;
    room = omega (
      arith,
      second.room,
      first.room,
      ap (length {A = ℕ}) first.left,
      length-drop j (view p.window),
    );
    left = second.left ∙ ap (λ (ys : List ℕ). drop k ys) first.left ∙ drop-drop k j (view p.window);
    counted = omega (arith, first.counted, second.counted);
    same = Same-trans p m q first.same second.same;
  }

  pub Found-trans : (k : ℕ) (q : Parser) (r : TypedRecord) → Found k m q r → Found (j + k) p q r
  Found-trans k q r second = record {
    skipped = both k second.skipped;
    split =
        sym (drop-drop k j (view p.window))
        ∙ ap (λ (ys : List ℕ). drop k ys) (sym first.left)
        ∙ second.split;
    is_record = second.is_record;
    counted = omega (arith, first.counted, second.counted);
    noted = Noted-trans p m q r first.same second.noted;
  }

  pub Outcome-trans : (o : Option TypedRecord) (q : Parser) → Outcome m o q → Outcome p o q
  Outcome-trans none q (k, adv, wait) = (j + k, Advance-trans k q adv, wait)
  Outcome-trans (some r) q (k, found) = (j + k, Found-trans k q r found)

  pub RoundSpec-trans : (o : Round) → RoundSpec m o → RoundSpec p o
  RoundSpec-trans (returns o q) h = Outcome-trans o q h
  RoundSpec-trans (continues q) (k, pos, adv) = (j + k, omega arith, Advance-trans k q adv)
