-- ===== src/Control/Encoder/Motion.antt =====
-- The motion fields of the control frames, read back as a receiver reads them.
use vsm_field_workstation.Prelude.{
  ℕ, ◌+◌, ◌-◌, ◌*◌, ◌/◌, ◌%◌, ◌^◌, ◌<◌, ◌≡◌, refl, List, [], ◌∷◌, arith, if◌then◌else◌, ltb,
  bit_and-mask, length, ap, ◌∙◌,
}
use vsm_field_workstation.Prelude.Int.{ℤ, pos, negsuc, clamp, clamp_bounds, ◌≤ℤ◌}
use vsm_field_workstation.Foreign.{Doubles}
use vsm_field_workstation.Wire.{IsBytes, byte, read_u16_le}
use vsm_field_workstation.Wire.Laws.{read_u16_le-word}
use vsm_field_workstation.Control.Encoder.{
  ControlCanFrame, to_u16, set_i16_le, clamp_double, steering_raw_01_deg, make_vcu_auto_frame,
}

-- `qint16` of a 16-bit pattern.
abbrev pub signed16 : ℕ → ℤ
signed16 w = if ltb w (2 ^ 15) then pos w else negsuc (2 ^ 16 - w - 1)

to_u16-lt : (v : ℤ) → to_u16 v < 2 ^ 16
unfolding to_u16
to_u16-lt v = ground arith

signed16-to_u16 : (v : ℤ) → negsuc 32767 ≤ℤ v → v ≤ℤ pos 32767 → signed16 (to_u16 v) ≡ v
unfolding to_u16
signed16-to_u16 v lo hi = ground arith

abbrev i16_range : ℤ → ℤ
i16_range v = clamp v (negsuc 32767) (pos 32767)

module _ (d : Doubles) where
  open d use {Double}

  -- An angle kept within 90 degrees to either side, in tenths of a degree, rounded.
  abbrev pub within_90_degrees : Double → Double
  within_90_degrees x =
      if d.lt x (d.milli (negsuc 89999))
      then d.milli (negsuc 89999)
      else if d.lt (d.milli (pos 90000)) x
      then d.milli (pos 90000)
      else x

  abbrev pub tenths : Double → ℤ
  tenths x = d.lround (d.times (within_90_degrees x) (d.milli (pos 10000)))

  -- What a receiver of a VCU frame reads: the mode in the top bits of byte 0, the command and the
  -- steering as little-endian 16-bit integers, and zeros.
  pub record SaysMotion (f : ControlCanFrame) (command : ℤ) (steering : Double) (mode : ℕ)
      : Type 0 where
    pub eight : length f.bytes ≡ 8
    pub all_bytes : IsBytes f.bytes
    pub mode_bits : byte f.bytes 0 ≡ mode % 4 * 64
    pub command_field : signed16 (read_u16_le f.bytes 1) ≡ clamp command (negsuc 9999) (pos 10000)
    pub steering_field : signed16 (read_u16_le f.bytes 3) ≡ i16_range (tenths steering)
    pub spare : (byte f.bytes 5 ≡ 0) × (byte f.bytes 6 ≡ 0) × (byte f.bytes 7 ≡ 0)

  module _ (id : ℕ) (command : ℤ) (steering : Double) (mode bus : ℕ) where
    abbrev f : ControlCanFrame
    f = make_vcu_auto_frame d id command steering mode bus

    abbrev a : ℤ
    a = clamp command (negsuc 9999) (pos 10000)

    abbrev b : ℤ
    b = tenths steering

    abbrev plain : List ℕ
    plain =
        mode % 4 * 64 % 256
        ∷ to_u16 (i16_range a) % 256
        ∷ to_u16 (i16_range a) / 256 % 256
        ∷ to_u16 (i16_range b) % 256
        ∷ to_u16 (i16_range b) / 256 % 256
        ∷ 0
        ∷ 0
        ∷ 0
        ∷ []

    vcu-plain : f.bytes ≡ plain
    unfolding make_vcu_auto_frame set_i16_le steering_raw_01_deg clamp_double
    vcu-plain = rw (
      bit_and-mask 2 mode,
      bit_and-mask 8 (to_u16 (i16_range a)),
      bit_and-mask 8 (to_u16 (i16_range a) / 2 ^ 8),
      bit_and-mask 8 (to_u16 (i16_range b)),
      bit_and-mask 8 (to_u16 (i16_range b) / 2 ^ 8),
    )

    field_at :
        (i : ℕ) (v : ℤ)
        → byte plain i ≡ to_u16 (i16_range v) % 256
        → byte plain (i + 1) ≡ to_u16 (i16_range v) / 256 % 256
        → signed16 (read_u16_le plain i) ≡ i16_range v
    field_at i v lo hi =
        let inside = clamp_bounds v (negsuc 32767) (pos 32767) (omega arith) in
        ap signed16
          (read_u16_le-word plain i (to_u16 (i16_range v)) (to_u16-lt (i16_range v)) lo hi)
        ∙ signed16-to_u16 (i16_range v) inside.0 inside.1

    command_fits : i16_range a ≡ a
    command_fits = ground arith

    -- The bytes of a VCU frame carry the mode, the command clamped to ±10000 and the steering angle,
    -- clamped to ±90 degrees, times ten, rounded and clamped to 16 bits, each readable as the receiver
    -- reads it, and zeros elsewhere.
    pub make_vcu_auto_frame-SaysMotion : SaysMotion f command steering mode
    make_vcu_auto_frame-SaysMotion = record {
      eight = rw vcu-plain;
      all_bytes = rw vcu-plain (omega arith);
      mode_bits = rw vcu-plain (omega arith);
      command_field = rw vcu-plain (field_at 1 a refl refl ∙ command_fits);
      steering_field = rw vcu-plain (field_at 3 b refl refl);
      spare = rw vcu-plain (refl, refl, refl);
    }
