-- ===== src/Packet/Laws.antt =====
-- The checksum of a packet is a byte, and the fields that share a word or a byte of it.
use vsm_field_workstation.Prelude.{
  ℕ, zero, suc, ◌+◌, ◌*◌, ◌/◌, ◌^◌, ◌<◌, ◌≡◌, refl, bit_xor, bit_and, bit_and-mask, Bool, true,
  false, not, List, [], ◌∷◌, arith, ◌==◌,
}
use vsm_field_workstation.Packet.{crc8_bit, crc8_bits, crc8_loop, crc8_atm}

crc8_bit-lt : (crc : ℕ) → crc8_bit crc < 256
unfolding crc8_bit
crc8_bit-lt crc = ground arith

crc8_bits-lt : (n crc : ℕ) → crc < 256 → crc8_bits n crc < 256
unfolding crc8_bits
crc8_bits-lt zero crc h = h
crc8_bits-lt (suc n) crc h = crc8_bits-lt n (crc8_bit crc) (crc8_bit-lt crc)

crc8_bits-lt_suc : (n crc : ℕ) → crc8_bits (suc n) crc < 256
unfolding crc8_bits
crc8_bits-lt_suc n crc = crc8_bits-lt n (crc8_bit crc) (crc8_bit-lt crc)

crc8_loop-lt : (bytes : List ℕ) (crc : ℕ) → crc < 256 → crc8_loop crc bytes < 256
unfolding crc8_loop
crc8_loop-lt [] crc h = h
crc8_loop-lt (b ∷ bs) crc h =
    crc8_loop-lt bs (crc8_bits 8 (bit_xor crc b)) (crc8_bits-lt_suc 7 (bit_xor crc b))

pub crc8_atm-lt : (bytes : List ℕ) → crc8_atm bytes < 256
unfolding crc8_atm
crc8_atm-lt bytes = crc8_loop-lt bytes 0 (omega arith)

abbrev pub bit : Bool → ℕ
bit true = 1
bit false = 0

abbrev pub id_flags : ℕ → Bool → Bool → ℕ
id_flags id ext rtr = id + bit ext * 2 ^ 29 + bit rtr * 2 ^ 30

pub id_flags-ext :
    (id : ℕ) (ext rtr : Bool)
    → id < 2 ^ 29
    → not (bit_and (id_flags id ext rtr / 2 ^ 29) 1 == 0) ≡ ext
id_flags-ext id true true h = ground (arith, bit_and-mask 1 (id_flags id true true / 2 ^ 29))
id_flags-ext id true false h = ground (arith, bit_and-mask 1 (id_flags id true false / 2 ^ 29))
id_flags-ext id false true h = ground (arith, bit_and-mask 1 (id_flags id false true / 2 ^ 29))
id_flags-ext id false false h = ground (arith, bit_and-mask 1 (id_flags id false false / 2 ^ 29))

pub id_flags-rtr :
    (id : ℕ) (ext rtr : Bool)
    → id < 2 ^ 29
    → not (bit_and (id_flags id ext rtr / 2 ^ 30) 1 == 0) ≡ rtr
id_flags-rtr id true true h = ground (arith, bit_and-mask 1 (id_flags id true true / 2 ^ 30))
id_flags-rtr id true false h = ground (arith, bit_and-mask 1 (id_flags id true false / 2 ^ 30))
id_flags-rtr id false true h = ground (arith, bit_and-mask 1 (id_flags id false true / 2 ^ 30))
id_flags-rtr id false false h = ground (arith, bit_and-mask 1 (id_flags id false false / 2 ^ 30))

pub id_flags-id :
    (id : ℕ) (ext rtr : Bool) → id < 2 ^ 29 → bit_and (id_flags id ext rtr) 0x1FFFFFFF ≡ id
id_flags-id id true true h = omega (arith, bit_and-mask 29 (id_flags id true true))
id_flags-id id true false h = omega (arith, bit_and-mask 29 (id_flags id true false))
id_flags-id id false true h = omega (arith, bit_and-mask 29 (id_flags id false true))
id_flags-id id false false h = omega (arith, bit_and-mask 29 (id_flags id false false))

-- A bus number carries no mark of a statistics packet.
pub bus_unmarked : (bus : ℕ) → bus < 4 → bit_and bus 0x80 ≡ 0
bus_unmarked zero h = refl
bus_unmarked (suc zero) h = refl
bus_unmarked (suc (suc zero)) h = refl
bus_unmarked (suc (suc (suc zero))) h = refl
bus_unmarked (suc (suc (suc (suc b)))) h = absurd (omega arith)
