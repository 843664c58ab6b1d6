-- ===== src/Packet.antt =====
-- The legacy packets: the checksum, the test of a candidate and the extension of the 32-bit time of
-- src/backend/PacketParser.cpp.
pub mod Clock
pub mod Stream
pub mod Laws
mod Tests
use vsm_field_workstation.Prelude.{
  ℕ, zero, suc, ◌+◌, ◌-◌, ◌*◌, ◌%◌, ◌^◌, bit_and, bit_or, bit_xor, Bool, true, false, not, ◌&&◌,
  List, [], ◌∷◌, ltb, ◌==◌, if◌then◌else◌, add_u, length, take, drop,
}
use vsm_field_workstation.Wire.{byte}

unfoldable pub crc8_bit : ℕ → ℕ
crc8_bit crc = if bit_and crc 0x80 == 0 then crc * 2 % 2 ^ 8 else bit_xor (crc * 2) 0x07 % 2 ^ 8

unfoldable pub crc8_bits : ℕ → ℕ → ℕ
unfolding crc8_bit
crc8_bits zero crc = crc
crc8_bits (suc n) crc = crc8_bits n (crc8_bit crc)

unfoldable pub crc8_loop : ℕ → List ℕ → ℕ
unfolding crc8_bits
crc8_loop crc [] = crc
crc8_loop crc (b ∷ bs) = crc8_loop (crc8_bits 8 (bit_xor crc b)) bs

unfoldable pub crc8_atm : List ℕ → ℕ
unfolding crc8_loop
crc8_atm bytes = crc8_loop 0 bytes

unfoldable pub is_plausible : List ℕ → ℕ → Bool
unfolding crc8_atm
is_plausible buffer offset =
    let p = drop offset buffer in
    if ltb (length buffer) (offset + 20)
    then false
    else if not (crc8_atm (take 19 p) == byte p 19)
    then false
    else not ((bit_and (byte p 17) 0x80 == 0) && ltb 8 (bit_and (byte p 8) 0x0F))

-- The members m_haveLastTus, m_lastTus and m_wrapCount.
pub record TimeState : Type 0 where
  pub have_last_tus : Bool
  pub last_tus : ℕ
  pub wrap_count : ℕ

-- The two operands of `|` stand in the other order.
unfoldable pub extend_tus : ℕ → TimeState → ℕ × TimeState
extend_tus t_us s =
    let prev_low = bit_and s.last_tus 0xFFFFFFFF in
    let wraps =
      if ltb t_us prev_low && ltb 0x80000000 (prev_low - t_us)
      then add_u 64 s.wrap_count 1
      else s.wrap_count in
    let extended = bit_or t_us (wraps * 2 ^ 32 % 2 ^ 64) in
    if not s.have_last_tus
    then (t_us, record s { have_last_tus = true; last_tus = t_us })
    else (extended, record s { last_tus = extended; wrap_count = wraps })
