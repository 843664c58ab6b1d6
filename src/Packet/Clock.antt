-- ===== src/Packet/Clock.antt =====
-- extendTus of src/backend/PacketParser.cpp against the time of the board.
use vsm_field_workstation.Prelude.{
  ℕ, ◌+◌, ◌-◌, ◌*◌, ◌/◌, ◌%◌, ◌^◌, ◌≤◌, ◌<◌, ◌≡◌, refl, ◌∙◌, bit_and, bit_or, bit_and-mask,
  bit_or-disjoint, true, ◌&&◌, arith, ltb, if◌then◌else◌, add_u,
}
use vsm_field_workstation.Packet.{TimeState, extend_tus}

-- The state knows that the clock stood at `time`.
pub record Knows (time : ℕ) (s : TimeState) : Type 0 where
  pub seen : s.have_last_tus ≡ true
  pub last : s.last_tus ≡ time
  pub wraps : s.wrap_count ≡ time / 2 ^ 32

extended_time :
    (time : ℕ) → time < 2 ^ 64 → bit_or (time % 2 ^ 32) (time / 2 ^ 32 * 2 ^ 32 % 2 ^ 64) ≡ time
extended_time time small =
    let e : time / 2 ^ 32 * 2 ^ 32 % 2 ^ 64 ≡ time / 2 ^ 32 * 2 ^ 32 = omega arith in
    rw e (bit_or-disjoint 32 (time % 2 ^ 32) (time / 2 ^ 32) (omega arith) ∙ omega arith)

new_wraps :
    (before now : ℕ)
    → before ≤ now
    → now < before + 2 ^ 31
    → now < 2 ^ 64
    → (if ltb (now % 2 ^ 32) (before % 2 ^ 32) && ltb 0x80000000 (before % 2 ^ 32 - now % 2 ^ 32)
        then add_u 64 (before / 2 ^ 32) 1
        else before / 2 ^ 32)
      ≡ now / 2 ^ 32
new_wraps before now later soon small = ground arith

-- If the clock stood at `before` when it was last read and stands at `now`, less than 2 ^ 31 us later
-- and below 2 ^ 64, then its low 32 bits are extended to `now`, however often they have wrapped, and
-- the state knows the new time.
pub extend_tus-Knows :
    (before now : ℕ) (s : TimeState)
    → Knows before s
    → before ≤ now
    → now < before + 2 ^ 31
    → now < 2 ^ 64
    → ((extend_tus (now % 2 ^ 32) s).0 ≡ now) × Knows now (extend_tus (now % 2 ^ 32) s).1
unfolding extend_tus
extend_tus-Knows before now s known later soon small =
    let low : bit_and s.last_tus 0xFFFFFFFF ≡ before % 2 ^ 32 =
      rw known.last (bit_and-mask 32 before) in
    let wrapped = new_wraps before now later soon small in
    let same = extended_time now small in
    (
      rw known.seen (rw low (rw known.wraps (rw wrapped same))),
      record {
        seen = rw known.seen refl;
        last = rw known.seen (rw low (rw known.wraps (rw wrapped same)));
        wraps = rw known.seen (rw low (rw known.wraps wrapped));
      },
    )
