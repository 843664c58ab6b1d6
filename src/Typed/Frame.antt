-- ===== src/Typed/Frame.antt =====
-- The layout of a frame of the typed stream, as shared/protocol/typed_stream_v1.md gives it: marker,
-- version, record type, flags, sequence number, payload length, payload, checksum.
-- It is the description that the parser and the encoder are held against.
pub mod Reads
pub mod Accept
pub mod Unique
use vsm_field_workstation.Prelude.{
  ℕ, ◌+◌, ◌*◌, ◌/◌, ◌%◌, ◌^◌, ◌≤◌, ◌<◌, ◌≡◌, refl, sym, ap, ◌∙◌, List, [], ◌∷◌, ◌++◌, arith,
  append_assoc, append-nil, length, take, drop, length-append, take-append, drop-append,
  get_or-drop, bit_or-disjoint,
}
use vsm_field_workstation.Wire.{IsByte, IsBytes, byte, read_u16_le, write_u16_le, crc16_ccitt}
use vsm_field_workstation.Wire.Laws.{write_u16_le-bytes, crc16_ccitt-lt}
use vsm_field_workstation.Typed.{
  TypedRecord, transport_sof0, transport_sof1, transport_max_payload_length,
}

-- What the checksum covers.
unfoldable pub frame_body : ℕ → ℕ → ℕ → ℕ → List ℕ → List ℕ
frame_body version type flags seq payload =
    version ∷ type ∷ flags ∷ (write_u16_le seq ++ (write_u16_le (length payload) ++ payload))

unfoldable pub frame : ℕ → ℕ → ℕ → ℕ → List ℕ → List ℕ
frame version type flags seq payload =
    let body = frame_body version type flags seq payload in
    transport_sof0 ∷ transport_sof1 ∷ (body ++ write_u16_le (crc16_ccitt body))

pub record IsHeader (version type flags seq : ℕ) (payload : List ℕ) : Type 0 where
  pub version_byte : version < 256
  pub type_byte : type < 256
  pub flags_byte : flags < 256
  pub seq_word : seq < 2 ^ 16
  pub fits : length payload ≤ transport_max_payload_length
  pub payload_bytes : IsBytes payload

-- The record says the same as its own bytes.
pub record IsRecord (r : TypedRecord) : Type 0 where
  pub header_ok :
      IsHeader r.header.version r.header.record_type r.header.flags r.header.seq r.payload
  pub length_field : r.header.payload_length ≡ length r.payload
  pub bytes :
      r.frame_bytes
      ≡ frame r.header.version r.header.record_type r.header.flags r.header.seq r.payload

module _ (v t f s : ℕ) (payload : List ℕ) where
  abbrev n : ℕ
  n = length payload

  abbrev crc : ℕ
  crc = crc16_ccitt (frame_body v t f s payload)

  pub body_shape :
      frame_body v t f s payload
      ≡ v ∷ t ∷ f ∷ s % 256 ∷ s / 256 % 256 ∷ n % 256 ∷ n / 256 % 256 ∷ payload
  unfolding frame_body
  body_shape = rw (write_u16_le-bytes s, write_u16_le-bytes n)

  pub frame_shape :
      (rest : List ℕ)
      → frame v t f s payload ++ rest
        ≡ transport_sof0
          ∷ transport_sof1
          ∷ v
          ∷ t
          ∷ f
          ∷ s % 256
          ∷ s / 256 % 256
          ∷ n % 256
          ∷ n / 256 % 256
          ∷ (payload ++ (crc % 256 ∷ crc / 256 % 256 ∷ rest))
  unfolding frame
  frame_shape rest =
      ap (λ (ys : List ℕ). transport_sof0 ∷ transport_sof1 ∷ ys)
        (append_assoc (frame_body v t f s payload) (write_u16_le crc) rest
          ∙ ap (λ (ys : List ℕ). ys ++ (write_u16_le crc ++ rest)) body_shape
          ∙ ap
              (λ (zs : List ℕ).
                v
                ∷ t
                ∷ f
                ∷ s % 256
                ∷ s / 256 % 256
                ∷ n % 256
                ∷ n / 256 % 256
                ∷ (payload ++ (zs ++ rest)))
              (write_u16_le-bytes crc))

  pub length-frame : length (frame v t f s payload) ≡ 11 + n
  length-frame = omega (
    arith,
    ap (length {A = ℕ}) (append-nil (frame v t f s payload)),
    ap (length {A = ℕ}) (frame_shape []),
    length-append payload (crc % 256 ∷ crc / 256 % 256 ∷ []),
  )
