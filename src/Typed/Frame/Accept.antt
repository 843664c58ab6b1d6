-- ===== src/Typed/Frame/Accept.antt =====
-- The tests of takeOne on a candidate, against the layout of a frame.
use vsm_field_workstation.Prelude.{
  ℕ, suc, ◌+◌, ◌≤◌, ◌≡◌, refl, sym, ap, ◌∙◌, List, [], ◌∷◌, ◌++◌, arith, append_assoc, length, take,
  drop, length-take, length-drop, take-append-drop, drop-drop, All-drop,
}
use vsm_field_workstation.Wire.{IsByte, IsBytes, byte, read_u16_le, write_u16_le, crc16_ccitt}
use vsm_field_workstation.Wire.Laws.{read_u16_le-drop, write-read_u16_le}
use vsm_field_workstation.Typed.{transport_sof0, transport_sof1}
use vsm_field_workstation.Typed.Frame.{frame_body, frame}

two_bytes : (xs : List ℕ) → 2 ≤ length xs → xs ≡ byte xs 0 ∷ byte xs 1 ∷ drop 2 xs
two_bytes [] h = absurd (omega arith)
two_bytes (x ∷ []) h = absurd (omega arith)
two_bytes (x ∷ (y ∷ xs)) h = refl

-- `d` with its header taken apart.
module _ (a b v t f s0 s1 l0 l1 : ℕ) (rest : List ℕ)
    (bytes : IsBytes (a ∷ b ∷ v ∷ t ∷ f ∷ s0 ∷ s1 ∷ l0 ∷ l1 ∷ rest)) where
  abbrev d : List ℕ
  d = a ∷ b ∷ v ∷ t ∷ f ∷ s0 ∷ s1 ∷ l0 ∷ l1 ∷ rest

  abbrev n : ℕ
  n = read_u16_le d 7

  abbrev payload : List ℕ
  payload = take n rest

  abbrev body : List ℕ
  body = frame_body v t f (read_u16_le d 5) payload

  body_bytes : n ≤ length rest → body ≡ take (7 + n) (drop 2 d)
  unfolding frame_body
  body_bytes h =
      let len : length payload ≡ n = omega (arith, length-take n rest) in
      let seven : 7 + n ≡ suc (suc (suc (suc (suc (suc (suc n)))))) = omega arith in
      rw (len, write-read_u16_le d 5 bytes, write-read_u16_le d 7 bytes, seven)

  tail_bytes :
      2 + n ≤ length rest → drop n rest ≡ write_u16_le (read_u16_le d (9 + n)) ++ drop (11 + n) d
  tail_bytes h =
      two_bytes (drop n rest) (omega (arith, length-drop n rest))
      ∙ ap (λ (ys : List ℕ). ys ++ drop 2 (drop n rest)) (sym crc)
      ∙ ap (λ (ys : List ℕ). write_u16_le (read_u16_le d (9 + n)) ++ ys) after
    where
      nine : drop (9 + n) d ≡ drop n rest
      nine = sym (drop-drop n 9 d)

      crc : write_u16_le (read_u16_le d (9 + n)) ≡ byte (drop n rest) 0 ∷ byte (drop n rest) 1 ∷ []
      crc =
          ap write_u16_le (read_u16_le-drop d (9 + n) ∙ ap (λ (ys : List ℕ). read_u16_le ys 0) nine)
          ∙ write-read_u16_le (drop n rest) 0 (All-drop IsByte n rest bytes.1.1.1.1.1.1.1.1.1)

      after : drop 2 (drop n rest) ≡ drop (11 + n) d
      after =
          drop-drop 2 n rest
          ∙ drop-drop (n + 2) 9 d
          ∙ ap (λ (k : ℕ). drop k d) {x = 9 + (n + 2)} {y = 11 + n} (omega arith)

  pub frame_of_bytes :
      a ≡ transport_sof0
      → b ≡ transport_sof1
      → 11 + n ≤ length d
      → read_u16_le d (9 + n) ≡ crc16_ccitt (take (7 + n) (drop 2 d))
      → d ≡ frame v t f (read_u16_le d 5) payload ++ drop (11 + n) d
  unfolding frame
  frame_of_bytes ea eb h e =
      let covered : List ℕ = take (7 + n) (drop 2 d) in
      let same : body ≡ covered = body_bytes (omega arith) in
      let seven : 7 + n ≡ suc (suc (suc (suc (suc (suc (suc n)))))) = omega arith in
      let back : d ≡ a ∷ b ∷ (covered ++ drop n rest) = rw (seven, take-append-drop n rest) in
      back
      ∙ ap (λ (x : ℕ). x ∷ b ∷ (covered ++ drop n rest)) ea
      ∙ ap (λ (x : ℕ). transport_sof0 ∷ x ∷ (covered ++ drop n rest)) eb
      ∙ ap (λ (ys : List ℕ). transport_sof0 ∷ transport_sof1 ∷ ys)
          (ap (λ (ys : List ℕ). covered ++ ys) (tail_bytes (omega arith))
            ∙ ap (λ (c : ℕ). covered ++ (write_u16_le c ++ drop (11 + n) d)) e
            ∙ ap (λ (ys : List ℕ). ys ++ (write_u16_le (crc16_ccitt ys) ++ drop (11 + n) d))
                (sym same)
            ∙ sym (append_assoc body (write_u16_le (crc16_ccitt body)) (drop (11 + n) d)))

-- The same for any bytes that are long enough.
pub frame_of :
    (d : List ℕ)
    → IsBytes d
    → byte d 0 ≡ transport_sof0
    → byte d 1 ≡ transport_sof1
    → 11 + read_u16_le d 7 ≤ length d
    → read_u16_le d (9 + read_u16_le d 7) ≡ crc16_ccitt (take (7 + read_u16_le d 7) (drop 2 d))
    → d
      ≡ frame (byte d 2) (byte d 3) (byte d 4) (read_u16_le d 5) (take (read_u16_le d 7) (drop 9 d))
        ++ drop (11 + read_u16_le d 7) d
frame_of [] bytes ea eb h e = absurd (omega arith)
frame_of (a ∷ []) bytes ea eb h e = absurd (omega arith)
frame_of (a ∷ (b ∷ [])) bytes ea eb h e = absurd (omega arith)
frame_of (a ∷ (b ∷ (v ∷ []))) bytes ea eb h e = absurd (omega arith)
frame_of (a ∷ (b ∷ (v ∷ (t ∷ [])))) bytes ea eb h e = absurd (omega arith)
frame_of (a ∷ (b ∷ (v ∷ (t ∷ (f ∷ []))))) bytes ea eb h e = absurd (omega arith)
frame_of (a ∷ (b ∷ (v ∷ (t ∷ (f ∷ (s0 ∷ [])))))) bytes ea eb h e = absurd (omega arith)
frame_of (a ∷ (b ∷ (v ∷ (t ∷ (f ∷ (s0 ∷ (s1 ∷ []))))))) bytes ea eb h e = absurd (omega arith)
frame_of (a ∷ (b ∷ (v ∷ (t ∷ (f ∷ (s0 ∷ (s1 ∷ (l0 ∷ [])))))))) bytes ea eb h e =
    absurd (omega arith)
frame_of (a ∷ (b ∷ (v ∷ (t ∷ (f ∷ (s0 ∷ (s1 ∷ (l0 ∷ (l1 ∷ rest))))))))) bytes ea eb h e =
    frame_of_bytes a b v t f s0 s1 l0 l1 rest bytes ea eb h e
