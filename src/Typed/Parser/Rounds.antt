-- ===== src/Typed/Parser/Rounds.antt =====
-- One round of the loop of takeOne.
use vsm_field_workstation.Prelude.{
  ℕ, ◌+◌, ◌≤◌, ◌<◌, ◌≡◌, refl, sym, ap, ◌∙◌, inl, inr, List, ◌++◌, arith, ltb, ◌==◌, Bool-cases,
  length, take, drop, take-append-drop, length-drop, length-take, take-append, take-append_le,
  drop-append_le, All-take, All-drop, ◌≢◌,
}
use vsm_field_workstation.Wire.{IsByte, IsBytes, byte, read_u16_le, crc16_ccitt}
use vsm_field_workstation.Wire.Laws.{byte-lt, read_u16_le-lt, read_u16_le-append}
use vsm_field_workstation.Typed.{TypedRecord}
use vsm_field_workstation.Typed.Frame.{IsRecord, frame, frame_body, length-frame}
use vsm_field_workstation.Typed.Frame.Accept.{frame_of}
use vsm_field_workstation.Typed.Frame.Reads.{frame-length_field, frame-covered, frame-crc_field}
use vsm_field_workstation.Typed.Parser.{
  Window, Parser, drop_buffered_bytes, view, buffered_bytes, discard, record_at, accept,
  frame_round, note_sequence,
}
use vsm_field_workstation.Typed.Parser.Outcomes.{
  Same, Noted, Advance, Found, RoundSpec, Advance-refl,
}
use vsm_field_workstation.Typed.Parser.View.{buffered-length, view-drop_buffered_bytes}
use vsm_field_workstation.Typed.Parser.Skips.{NoFrame, Skipped, Starts, Skipped-zero, Skipped-one}

pub discard-Advance :
    (n : ℕ) (p m : Parser)
    → m.window ≡ p.window
    → m.counters.bytes_dropped ≡ p.counters.bytes_dropped
    → Same p m
    → Skipped n (view p.window)
    → n ≤ length (view p.window)
    → Advance n p (discard n m)
unfolding discard
discard-Advance n p m same kept others skipped room = record {
  skipped = skipped;
  room = room;
  left = view-drop_buffered_bytes n m.window ∙ ap (λ (w : Window). drop n (view w)) same;
  counted = omega (arith, kept);
  same = record {
    frames = others.frames;
    seq_gaps = others.seq_gaps;
    version_warnings = others.version_warnings;
    have_last_seq = others.have_last_seq;
    last_seq = others.last_seq;
  };
}

-- A length field above the limit, or a checksum that does not match, belongs to no frame.
length-NoFrame : (d : List ℕ) → 11 ≤ length d → 4096 < read_u16_le d 7 → NoFrame d
length-NoFrame d room h more v t f s payload rest ok e = absurd (
    omega (
      arith,
      ok.fits,
      read_u16_le-append d more 7 (omega arith),
      ap (λ (ys : List ℕ). read_u16_le ys 7) e,
      frame-length_field v t f s payload rest (omega (arith, ok.fits)),
    ))

crc-NoFrame :
    (d : List ℕ) (n : ℕ)
    → read_u16_le d 7 ≡ n
    → 11 + n ≤ length d
    → read_u16_le d (9 + n) ≢ crc16_ccitt (take (7 + n) (drop 2 d))
    → NoFrame d
crc-NoFrame d n len room differs more v t f s payload rest ok e = differs (field ∙ sym sum)
  where
    size : n ≡ length payload
    size =
        sym len
        ∙ sym (read_u16_le-append d more 7 (omega arith))
        ∙ ap (λ (ys : List ℕ). read_u16_le ys 7) e
        ∙ frame-length_field v t f s payload rest (omega (arith, ok.fits))

    field : read_u16_le d (9 + n) ≡ crc16_ccitt (frame_body v t f s payload)
    field =
        sym (read_u16_le-append d more (9 + n) (omega arith))
        ∙ ap (λ (ys : List ℕ). read_u16_le ys (9 + n)) e
        ∙ ap (λ (k : ℕ). read_u16_le (frame v t f s payload ++ rest) (9 + k)) size
        ∙ frame-crc_field v t f s payload rest

    visible : take (7 + n) (drop 2 (d ++ more)) ≡ take (7 + n) (drop 2 d)
    visible =
        ap (λ (ys : List ℕ). take (7 + n) ys) (drop-append_le d more 2 (omega arith))
        ∙ take-append_le (drop 2 d) more (7 + n) (omega (arith, length-drop 2 d))

    sum : crc16_ccitt (take (7 + n) (drop 2 d)) ≡ crc16_ccitt (frame_body v t f s payload)
    sum = ap crc16_ccitt (
        sym visible
        ∙ ap (λ (ys : List ℕ). take (7 + n) (drop 2 ys)) e
        ∙ ap (λ (k : ℕ). take (7 + k) (drop 2 (frame v t f s payload ++ rest))) size
        ∙ frame-covered v t f s payload rest)

record_at-IsRecord :
    (d : List ℕ) (n : ℕ)
    → IsBytes d
    → read_u16_le d 7 ≡ n
    → n ≤ 4096
    → 11 + n ≤ length d
    → d
      ≡ frame (byte d 2) (byte d 3) (byte d 4) (read_u16_le d 5) (take n (drop 9 d))
        ++ drop (11 + n) d
    → IsRecord (record_at d n)
unfolding record_at
record_at-IsRecord d n bytes len fits room e = record {
  header_ok = record {
    version_byte = byte-lt d 2 bytes;
    type_byte = byte-lt d 3 bytes;
    flags_byte = byte-lt d 4 bytes;
    seq_word = read_u16_le-lt d 5 bytes;
    fits = omega (arith, size);
    payload_bytes = All-take IsByte n (drop 9 d) (All-drop IsByte 9 d bytes);
  };
  length_field = sym size;
  bytes =
      ap (λ (ys : List ℕ). take (11 + n) ys) e
      ∙ take-append _ (drop (11 + n) d) (11 + n) (
          omega (
            arith,
            size,
            length-frame (byte d 2) (byte d 3) (byte d 4) (read_u16_le d 5) (take n (drop 9 d)),
          ));
}
  where
    size : length (take n (drop 9 d)) ≡ n
    size = omega (arith, length-take n (drop 9 d), length-drop 9 d)

accept-window :
    (r : TypedRecord) (n : ℕ) (p : Parser) → (accept r n p).window ≡ drop_buffered_bytes n p.window
unfolding accept note_sequence
accept-window r n p = ground arith

accept-dropped :
    (r : TypedRecord) (n : ℕ) (p : Parser)
    → (accept r n p).counters.bytes_dropped ≡ p.counters.bytes_dropped
unfolding accept note_sequence
accept-dropped r n p = ground arith

accept-Noted : (r : TypedRecord) (n : ℕ) (p : Parser) → Noted p (accept r n p) r
unfolding accept note_sequence
accept-Noted r n p = record {
  frames = ground arith;
  seq_gaps = ground arith;
  version_warnings = ground arith;
  have_last_seq = ground arith;
  last_seq = ground arith;
}

-- The round on a window that begins with the marker, or is too short to tell.
module _ (p : Parser) (starts : Starts (view p.window)) (bytes : IsBytes (view p.window)) where
  abbrev d : List ℕ
  d = view p.window

  abbrev n : ℕ
  n = read_u16_le d 7

  frame-Found :
      n ≤ 4096
      → 11 + n ≤ length d
      → read_u16_le d (9 + n) ≡ crc16_ccitt (take (7 + n) (drop 2 d))
      → Found 0 p (accept (record_at d n) (11 + n) p) (record_at d n)
  frame-Found fits room crc = record {
    skipped = Skipped-zero d;
    split = split;
    is_record = is_record;
    counted = omega (arith, accept-dropped (record_at d n) (11 + n) p);
    noted = accept-Noted (record_at d n) (11 + n) p;
  }
    where
      is_record : IsRecord (record_at d n)
      is_record =
          record_at-IsRecord d n bytes refl fits room (frame_of d bytes starts.0 starts.1 room crc)

      split : d ≡ (record_at d n).frame_bytes ++ view (accept (record_at d n) (11 + n) p).window
      split =
          unfold record_at in
          sym (take-append-drop (11 + n) d)
          ∙ ap (λ (ys : List ℕ). take (11 + n) d ++ ys)
              (sym (
                ap (λ (w : Window). view w) (accept-window (record_at d n) (11 + n) p)
                ∙ view-drop_buffered_bytes (11 + n) p.window))

  pub frame_round-RoundSpec : RoundSpec p (frame_round p)
  unfolding frame_round
  frame_round-RoundSpec = elim (Bool-cases (ltb (buffered_bytes p.window) 11)) [
    | inl short ↦ rw short (0, Advance-refl p, inl (ground (arith, size)))
    | inr long ↦ elim (Bool-cases (ltb 4096 n)) [
      | inl over ↦
          rw (long, over)
            (
              1,
              omega arith,
              discard-Advance 1 p _ refl refl (ground arith)
                  (Skipped-one d (length-NoFrame d (ground (arith, size)) (ground arith)))
                  (ground (arith, size)),
            )
      | inr fits ↦ elim (Bool-cases (ltb (buffered_bytes p.window) (11 + n))) [
        | inl partial ↦
            rw (long, fits, partial)
              (0, Advance-refl p, inr (starts, ground arith, ground (arith, size)))
        | inr whole ↦ elim (Bool-cases (expected == actual)) [
          | inl same ↦
              rw (long, fits, whole, same)
                (0, frame-Found (ground arith) (ground (arith, size)) (ground arith))
          | inr wrong ↦
              rw (long, fits, whole, wrong)
                (
                  1,
                  omega arith,
                  discard-Advance 1 p _ refl refl (ground arith)
                      (Skipped-one d
                        (crc-NoFrame d n refl (ground (arith, size)) (λ e. ground arith)))
                      (ground (arith, size)),
                )
        ]
      ]
    ]
  ]
    where
      size : buffered_bytes p.window ≡ length d
      size = buffered-length p.window

      expected : ℕ
      expected = read_u16_le d (9 + n)

      actual : ℕ
      actual = crc16_ccitt (take (7 + n) (drop 2 d))
