-- ===== src/Wire.antt =====
-- Little-endian fields of the typed stream and the checksum of its frames:
-- src/backend/TypedRecords.cpp (typedReadU16Le and the other readers),
-- src/backend/ControlCommandEncoder.cpp (wrU16Le, wrU32Le) and the crc16Ccitt of both ends.
-- A byte array is a list of numbers below 256, and a pointer into it is the list from there on.
pub mod Laws
use vsm_field_workstation.Prelude.{
  ℕ, zero, suc, ◌+◌, ◌-◌, ◌*◌, ◌/◌, ◌%◌, ◌^◌, ◌<◌, bit_and, bit_or, bit_xor, List, [], ◌∷◌, ltb,
  ◌==◌, if◌then◌else◌, get_or, All,
}
use vsm_field_workstation.Prelude.Int.{ℤ, pos, negsuc}

abbrev pub IsByte : ℕ → Type 0
IsByte b = b < 256

abbrev pub IsBytes : List ℕ → Type 0
IsBytes = All IsByte

-- `p[i]`.
abbrev pub byte : List ℕ → ℕ → ℕ
byte p i = get_or p i 0

unfoldable pub read_u16_le : List ℕ → ℕ → ℕ
read_u16_le p i = bit_or (byte p i) (byte p (i + 1) * 2 ^ 8)

unfoldable pub read_u32_le : List ℕ → ℕ → ℕ
read_u32_le p i =
    bit_or (bit_or (bit_or (byte p i) (byte p (i + 1) * 2 ^ 8)) (byte p (i + 2) * 2 ^ 16))
      (byte p (i + 3) * 2 ^ 24)

unfoldable pub read_u64_le : List ℕ → ℕ → ℕ
unfolding read_u32_le
read_u64_le p i = bit_or (read_u32_le p i) (read_u32_le p (i + 4) * 2 ^ 32)

-- `qint64(value)` of an unsigned value: the two's complement reading.
unfoldable pub read_i64_le : List ℕ → ℕ → ℤ
unfolding read_u64_le
read_i64_le p i =
    let w = read_u64_le p i in if ltb w (2 ^ 63) then pos w else negsuc (2 ^ 64 - w - 1)

unfoldable pub write_u16_le : ℕ → List ℕ
write_u16_le value = bit_and value 0xFF ∷ bit_and (value / 2 ^ 8) 0xFF ∷ []

unfoldable pub write_u32_le : ℕ → List ℕ
write_u32_le value =
    bit_and value 0xFF
    ∷ bit_and (value / 2 ^ 8) 0xFF
    ∷ bit_and (value / 2 ^ 16) 0xFF
    ∷ bit_and (value / 2 ^ 24) 0xFF
    ∷ []

-- One round of the inner loop: `crc & 0x8000` chooses the branch, `quint16(...)` cuts to 16 bits.
unfoldable pub crc_bit : ℕ → ℕ
crc_bit crc =
    if bit_and crc 0x8000 == 0 then crc * 2 % 2 ^ 16 else bit_xor (crc * 2) 0x1021 % 2 ^ 16

unfoldable pub crc_bits : ℕ → ℕ → ℕ
unfolding crc_bit
crc_bits zero crc = crc
crc_bits (suc n) crc = crc_bits n (crc_bit crc)

unfoldable pub crc_loop : ℕ → List ℕ → ℕ
unfolding crc_bits
crc_loop crc [] = crc
crc_loop crc (b ∷ bs) = crc_loop (crc_bits 8 (bit_xor crc (b * 2 ^ 8) % 2 ^ 16)) bs

unfoldable pub crc16_ccitt : List ℕ → ℕ
unfolding crc_loop
crc16_ccitt bytes = crc_loop 0xFFFF bytes
