-- ===== src/Typed/Frame/Unique.antt =====
-- Two frames at the beginning of one byte sequence.
use vsm_field_workstation.Prelude.{ℕ, ◌+◌, ◌≡◌, sym, ap, ◌∙◌, List, ◌++◌, arith, length, take, drop}
use vsm_field_workstation.Wire.{byte, read_u16_le}
use vsm_field_workstation.Typed.Frame.{IsHeader, frame, frame_shape}
use vsm_field_workstation.Typed.Frame.Reads.{
  frame-length_field, frame-seq_field, frame-payload, frame-rest,
}

module _ (v t f s : ℕ) (payload rest : List ℕ) (v' t' f' s' : ℕ) (payload' rest' : List ℕ)
    (a : IsHeader v t f s payload) (b : IsHeader v' t' f' s' payload')
    (e : frame v t f s payload ++ rest ≡ frame v' t' f' s' payload' ++ rest') where
  same_length : length payload ≡ length payload'
  same_length =
      sym (frame-length_field v t f s payload rest (omega (arith, a.fits)))
      ∙ ap (λ (ys : List ℕ). read_u16_le ys 7) e
      ∙ frame-length_field v' t' f' s' payload' rest' (omega (arith, b.fits))

  same_byte :
      (i : ℕ)
      → byte (frame v t f s payload ++ rest) i ≡ byte (frame v' t' f' s' payload' ++ rest') i
  same_byte i = ap (λ (ys : List ℕ). byte ys i) e

  pub same_version : v ≡ v'
  same_version =
      rw (frame_shape v t f s payload rest, frame_shape v' t' f' s' payload' rest') at (same_byte 2)

  pub same_type : t ≡ t'
  same_type =
      rw (frame_shape v t f s payload rest, frame_shape v' t' f' s' payload' rest') at (same_byte 3)

  pub same_flags : f ≡ f'
  same_flags =
      rw (frame_shape v t f s payload rest, frame_shape v' t' f' s' payload' rest') at (same_byte 4)

  pub same_seq : s ≡ s'
  same_seq =
      sym (frame-seq_field v t f s payload rest a.seq_word)
      ∙ ap (λ (ys : List ℕ). read_u16_le ys 5) e
      ∙ frame-seq_field v' t' f' s' payload' rest' b.seq_word

  pub same_payload : payload ≡ payload'
  same_payload =
      sym (frame-payload v t f s payload rest)
      ∙ ap (λ (ys : List ℕ). take (length payload) (drop 9 ys)) e
      ∙ ap (λ (k : ℕ). take k (drop 9 (frame v' t' f' s' payload' ++ rest'))) same_length
      ∙ frame-payload v' t' f' s' payload' rest'

  pub same_rest : rest ≡ rest'
  same_rest =
      sym (frame-rest v t f s payload rest)
      ∙ ap (λ (ys : List ℕ). drop (11 + length payload) ys) e
      ∙ ap (λ (k : ℕ). drop (11 + k) (frame v' t' f' s' payload' ++ rest')) same_length
      ∙ frame-rest v' t' f' s' payload' rest'
