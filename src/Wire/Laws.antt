-- ===== src/Wire/Laws.antt =====
-- The fields of the wire format as arithmetic.
use vsm_field_workstation.Prelude.{
  ℕ, zero, suc, ◌+◌, ◌*◌, ◌/◌, ◌%◌, ◌^◌, ◌<◌, ◌≡◌, refl, bit_or, List, [], ◌∷◌, arith, bit_and-mask,
  bit_or-disjoint, ap, ◌∙◌, take, drop, get_or-drop, get_or-append, length, ◌++◌,
}
use vsm_field_workstation.Wire.{
  IsBytes, byte, read_u16_le, read_u32_le, read_u64_le, write_u16_le, write_u32_le, crc_bit,
  crc_bits, crc_loop, crc16_ccitt,
}

pub byte-take : (n : ℕ) (p : List ℕ) (i : ℕ) → i < n → byte (take n p) i ≡ byte p i
byte-take zero p i h = absurd (omega arith)
byte-take (suc n) [] i h = refl
byte-take (suc n) (x ∷ xs) zero h = refl
byte-take (suc n) (x ∷ xs) (suc i) h = byte-take n xs i (omega arith)

pub byte-drop : (n : ℕ) (p : List ℕ) (i : ℕ) → byte (drop n p) i ≡ byte p (n + i)
byte-drop zero p i = let e : 0 + i ≡ i = omega arith in rw e refl
byte-drop (suc n) [] i = refl
byte-drop (suc n) (x ∷ xs) i =
    let e : suc n + i ≡ suc (n + i) = omega arith in rw e (byte-drop n xs i)

-- A byte read is a byte, also past the end, where the model reads 0.
pub byte-lt : (p : List ℕ) (i : ℕ) → IsBytes p → byte p i < 256
byte-lt [] i h = omega arith
byte-lt (x ∷ xs) zero h = h.0
byte-lt (x ∷ xs) (suc i) h = byte-lt xs i h.1

pub read_u16_le-sum :
    (p : List ℕ) (i : ℕ) → IsBytes p → read_u16_le p i ≡ byte p i + byte p (i + 1) * 256
unfolding read_u16_le
read_u16_le-sum p i h = bit_or-disjoint 8 (byte p i) (byte p (i + 1)) (byte-lt p i h)

pub read_u16_le-lt : (p : List ℕ) (i : ℕ) → IsBytes p → read_u16_le p i < 2 ^ 16
read_u16_le-lt p i h = omega (arith, read_u16_le-sum p i h, byte-lt p i h, byte-lt p (i + 1) h)

pub read_u32_le-sum :
    (p : List ℕ) (i : ℕ)
    → IsBytes p
    → read_u32_le p i
      ≡ byte p i + byte p (i + 1) * 2 ^ 8 + byte p (i + 2) * 2 ^ 16 + byte p (i + 3) * 2 ^ 24
unfolding read_u32_le
read_u32_le-sum p i h =
    rw (low, mid) (bit_or-disjoint 24 _ (byte p (i + 3)) (omega (arith, b0, b1, b2)))
  where
    b0 : byte p i < 256
    b0 = byte-lt p i h

    b1 : byte p (i + 1) < 256
    b1 = byte-lt p (i + 1) h

    b2 : byte p (i + 2) < 256
    b2 = byte-lt p (i + 2) h

    low : bit_or (byte p i) (byte p (i + 1) * 2 ^ 8) ≡ byte p i + byte p (i + 1) * 2 ^ 8
    low = bit_or-disjoint 8 (byte p i) (byte p (i + 1)) b0

    mid :
        bit_or (byte p i + byte p (i + 1) * 2 ^ 8) (byte p (i + 2) * 2 ^ 16)
        ≡ byte p i + byte p (i + 1) * 2 ^ 8 + byte p (i + 2) * 2 ^ 16
    mid = bit_or-disjoint 16 _ (byte p (i + 2)) (omega (arith, b0, b1))

pub read_u32_le-lt : (p : List ℕ) (i : ℕ) → IsBytes p → read_u32_le p i < 2 ^ 32
read_u32_le-lt p i h = omega (
  arith,
  read_u32_le-sum p i h,
  byte-lt p i h,
  byte-lt p (i + 1) h,
  byte-lt p (i + 2) h,
  byte-lt p (i + 3) h,
)

pub read_u64_le-lt : (p : List ℕ) (i : ℕ) → IsBytes p → read_u64_le p i < 2 ^ 64
unfolding read_u64_le
read_u64_le-lt p i h = omega (
  arith,
  bit_or-disjoint 32 (read_u32_le p i) (read_u32_le p (i + 4)) (read_u32_le-lt p i h),
  read_u32_le-lt p i h,
  read_u32_le-lt p (i + 4) h,
)

pub write_u16_le-bytes : (v : ℕ) → write_u16_le v ≡ v % 256 ∷ v / 256 % 256 ∷ []
unfolding write_u16_le
write_u16_le-bytes v = rw (bit_and-mask 8 v, bit_and-mask 8 (v / 2 ^ 8))

pub write_u32_le-bytes :
    (v : ℕ) → write_u32_le v ≡ v % 256 ∷ v / 2 ^ 8 % 256 ∷ v / 2 ^ 16 % 256 ∷ v / 2 ^ 24 % 256 ∷ []
unfolding write_u32_le
write_u32_le-bytes v = rw (
  bit_and-mask 8 v,
  bit_and-mask 8 (v / 2 ^ 8),
  bit_and-mask 8 (v / 2 ^ 16),
  bit_and-mask 8 (v / 2 ^ 24),
)

crc_bit-lt : (crc : ℕ) → crc_bit crc < 2 ^ 16
unfolding crc_bit
crc_bit-lt crc = ground arith

crc_bits-lt : (n crc : ℕ) → crc < 2 ^ 16 → crc_bits n crc < 2 ^ 16
unfolding crc_bits
crc_bits-lt zero crc h = h
crc_bits-lt (suc n) crc h = crc_bits-lt n (crc_bit crc) (crc_bit-lt crc)

crc_loop-lt : (bytes : List ℕ) (crc : ℕ) → crc < 2 ^ 16 → crc_loop crc bytes < 2 ^ 16
unfolding crc_loop
crc_loop-lt [] crc h = h
crc_loop-lt (b ∷ bs) crc h = crc_loop-lt bs _ (crc_bits-lt 8 _ (omega arith))

pub crc16_ccitt-lt : (bytes : List ℕ) → crc16_ccitt bytes < 2 ^ 16
unfolding crc16_ccitt
crc16_ccitt-lt bytes = crc_loop-lt bytes 0xFFFF (omega arith)

-- The check value of CRC-16/CCITT-FALSE over the digits 1 to 9.
crc_check : crc16_ccitt (0x31 ∷ 0x32 ∷ 0x33 ∷ 0x34 ∷ 0x35 ∷ 0x36 ∷ 0x37 ∷ 0x38 ∷ 0x39 ∷ []) ≡ 0x29B1
unfolding crc16_ccitt
crc_check = refl

-- A word is read from the two bytes it is written as, and written as the two bytes it is read from.
pub read_u16_le-word :
    (p : List ℕ) (i v : ℕ)
    → v < 2 ^ 16
    → byte p i ≡ v % 256
    → byte p (i + 1) ≡ v / 256 % 256
    → read_u16_le p i ≡ v
unfolding read_u16_le
read_u16_le-word p i v h low high =
    omega (arith, low, high, bit_or-disjoint 8 (byte p i) (byte p (i + 1)) (omega (arith, low)))

pub write-read_u16_le :
    (p : List ℕ) (i : ℕ)
    → IsBytes p
    → write_u16_le (read_u16_le p i) ≡ byte p i ∷ byte p (i + 1) ∷ []
write-read_u16_le p i h =
    let low : read_u16_le p i % 256 ≡ byte p i =
      omega (arith, read_u16_le-sum p i h, byte-lt p i h, byte-lt p (i + 1) h) in
    let high : read_u16_le p i / 256 % 256 ≡ byte p (i + 1) =
      omega (arith, read_u16_le-sum p i h, byte-lt p i h, byte-lt p (i + 1) h) in
    rw (write_u16_le-bytes, low, high)

pub read_u16_le-drop : (p : List ℕ) (k : ℕ) → read_u16_le p k ≡ read_u16_le (drop k p) 0
unfolding read_u16_le
read_u16_le-drop p k =
    let e : k + 0 ≡ k = omega arith in
    let low : byte (drop k p) 0 ≡ byte p k = get_or-drop p k 0 0 ∙ ap (byte p) e in
    let high : byte (drop k p) (0 + 1) ≡ byte p (k + 1) = get_or-drop p k 1 0 in rw (low, high)

pub read_u16_le-append :
    (p more : List ℕ) (i : ℕ) → i + 1 < length p → read_u16_le (p ++ more) i ≡ read_u16_le p i
unfolding read_u16_le
read_u16_le-append p more i h =
    rw (get_or-append p more i 0 (omega arith), get_or-append p more (i + 1) 0 h)

pub read_u32_le-word :
    (p : List ℕ) (i v : ℕ)
    → IsBytes p
    → v < 2 ^ 32
    → byte p i ≡ v % 256
    → byte p (i + 1) ≡ v / 2 ^ 8 % 256
    → byte p (i + 2) ≡ v / 2 ^ 16 % 256
    → byte p (i + 3) ≡ v / 2 ^ 24 % 256
    → read_u32_le p i ≡ v
read_u32_le-word p i v h small b0 b1 b2 b3 =
    read_u32_le-sum p i h ∙ rw (b0, b1, b2, b3) (omega arith)
