-- ===== src/Typed/Frame/Reads.antt =====
-- The fields of a frame, at the offsets at which takeOne reads them.
use vsm_field_workstation.Prelude.{
  ℕ, ◌+◌, ◌/◌, ◌%◌, ◌^◌, ◌<◌, ◌≡◌, refl, ap, ◌∙◌, List, ◌∷◌, ◌++◌, arith, append_assoc, length,
  take, drop, take-append, drop-append,
}
use vsm_field_workstation.Wire.{read_u16_le, write_u16_le, crc16_ccitt}
use vsm_field_workstation.Wire.Laws.{
  write_u16_le-bytes, crc16_ccitt-lt, read_u16_le-word, read_u16_le-drop,
}
use vsm_field_workstation.Typed.{transport_sof0, transport_sof1}
use vsm_field_workstation.Typed.Frame.{frame_body, frame, frame_shape, body_shape, length-frame}

module _ (v t f s : ℕ) (payload rest : List ℕ) where
  abbrev n : ℕ
  n = length payload

  abbrev body : List ℕ
  body = frame_body v t f s payload

  abbrev whole : List ℕ
  whole = frame v t f s payload ++ rest

  length-body : length body ≡ 7 + n
  length-body = omega (arith, ap (length {A = ℕ}) (body_shape v t f s payload))

  frame_split :
      whole ≡ (transport_sof0 ∷ transport_sof1 ∷ body) ++ (write_u16_le (crc16_ccitt body) ++ rest)
  unfolding frame
  frame_split =
      ap (λ (ys : List ℕ). transport_sof0 ∷ transport_sof1 ∷ ys)
        (append_assoc body (write_u16_le (crc16_ccitt body)) rest)

  pub frame-length_field : n < 2 ^ 16 → read_u16_le whole 7 ≡ n
  frame-length_field h = rw (frame_shape v t f s payload rest) (read_u16_le-word _ 7 n h refl refl)

  pub frame-seq_field : s < 2 ^ 16 → read_u16_le whole 5 ≡ s
  frame-seq_field h = rw (frame_shape v t f s payload rest) (read_u16_le-word _ 5 s h refl refl)

  pub frame-covered : take (7 + n) (drop 2 whole) ≡ body
  frame-covered =
      ap (λ (ys : List ℕ). take (7 + n) (drop 2 ys)) frame_split
      ∙ take-append body (write_u16_le (crc16_ccitt body) ++ rest) (7 + n)
          (omega (arith, length-body))

  pub frame-crc_field : read_u16_le whole (9 + n) ≡ crc16_ccitt body
  frame-crc_field =
      read_u16_le-drop whole (9 + n)
      ∙ ap (λ (ys : List ℕ). read_u16_le ys 0) tail
      ∙ read_u16_le-word _ 0 (crc16_ccitt body) (crc16_ccitt-lt body) refl refl
    where
      tail : drop (9 + n) whole ≡ crc16_ccitt body % 256 ∷ crc16_ccitt body / 256 % 256 ∷ rest
      tail =
          ap (λ (ys : List ℕ). drop (9 + n) ys) frame_split
          ∙ drop-append (transport_sof0 ∷ transport_sof1 ∷ body)
              (write_u16_le (crc16_ccitt body) ++ rest) (9 + n) (omega (arith, length-body))
          ∙ ap (λ (ys : List ℕ). ys ++ rest) (write_u16_le-bytes (crc16_ccitt body))

  pub frame-payload : take n (drop 9 whole) ≡ payload
  frame-payload =
      ap (λ (ys : List ℕ). take n (drop 9 ys)) (frame_shape v t f s payload rest)
      ∙ take-append payload _ n refl

  pub frame-bytes : take (11 + n) whole ≡ frame v t f s payload
  frame-bytes =
      take-append (frame v t f s payload) rest (11 + n)
        (omega (arith, length-frame v t f s payload))

  pub frame-rest : drop (11 + n) whole ≡ rest
  frame-rest =
      drop-append (frame v t f s payload) rest (11 + n)
        (omega (arith, length-frame v t f s payload))
