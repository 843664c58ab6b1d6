-- ===== src/Prelude/Bits.antt =====
-- `bit_and` by a mask and `bit_or` of disjoint fields, as arithmetic, at every width.
use Prim.Native.Nat.{
  ℕ, zero, suc, ◌+◌, ◌-◌, ◌*◌, ◌/◌, ◌%◌, ◌^◌, ◌≤◌, ◌<◌, min, max, bit_and, bit_or, digits,
  bit_and-bitwise, bit_or-bitwise,
}
use mathlib.Core.Path.{◌≡◌, refl, ap, ◌∙◌}
use native.Mathlib.Omega.{arith}
use native.Mathlib.Nat.{pow-suc, div-add-mod', mod-lt, mod-eq_of_lt, mul-add-mod_self_right}

-- The operations walk down the binary digits of the left word, on fuel. Any two amounts of fuel that
-- reach its end agree, whatever is done with a pair of digits and with the rest of the right word.
module _ (rest : ℕ → ℕ) (join : ℕ → ℕ → ℕ) where
  abbrev walk : ℕ → ℕ → ℕ → ℕ
  walk fuel left right = digits rest join fuel left right

  walk_agrees :
      (left right more less : ℕ)
      → left ≤ less
      → left ≤ more
      → walk more left right ≡ walk less left right
  walk_agrees zero right zero zero enough also = refl
  walk_agrees zero right zero (suc less) enough also = refl
  walk_agrees zero right (suc more) zero enough also = refl
  walk_agrees zero right (suc more) (suc less) enough also = refl
  walk_agrees (suc left) right zero less enough also = absurd (omega arith)
  walk_agrees (suc left) right (suc more) zero enough also = absurd (omega arith)
  walk_agrees (suc left) right (suc more) (suc less) enough also =
      let halved = walk_agrees (suc left / 2) (right / 2) more less (omega arith) (omega arith) in
      omega (arith, halved)

  -- One digit at a time, with the fuel of the halved word.
  walk_once :
      (left right : ℕ)
      → walk (suc left) (suc left) right
        ≡ walk (suc left / 2) (suc left / 2) (right / 2) * 2 + join (suc left % 2) (right % 2)
  walk_once left right =
      let halved =
        walk_agrees (suc left / 2) (right / 2) left (suc left / 2) (omega arith) (omega arith) in
      omega (arith, halved)

abbrev none_left : ℕ → ℕ
none_left right = zero

abbrev all_left : ℕ → ℕ
all_left right = right

pub bit_and_step : (a b : ℕ) → bit_and a b ≡ bit_and (a / 2) (b / 2) * 2 + min (a % 2) (b % 2)
bit_and_step zero b =
    let ends = bit_and-bitwise 0 b in omega (arith, bit_and-bitwise 0 (b / 2), ends)
bit_and_step (suc a) b =
    let once = walk_once none_left min a b in
    omega (arith, bit_and-bitwise (suc a / 2) (b / 2), once, bit_and-bitwise (suc a) b)

-- Nothing is common with zero.
no_common_digit : (size a : ℕ) → a ≤ size → bit_and a 0 ≡ 0
no_common_digit size zero small = refl
no_common_digit zero (suc a) small = absurd (omega arith)
no_common_digit (suc size) (suc a) small =
    let halved = no_common_digit size (suc a / 2) (omega arith) in
    omega (halved, arith, bit_and_step (suc a) 0)

pow_step : (k : ℕ) → 2 ^ suc k ≡ 2 * 2 ^ k
pow_step k = omega (arith, pow-suc 2 k)

pow_pos : (k : ℕ) → 1 ≤ 2 ^ k
pow_pos zero = omega arith
pow_pos (suc k) = omega (arith, pow_step k, pow_pos k)

mod_step : (k a : ℕ) → a % 2 ^ suc k ≡ a / 2 % 2 ^ k * 2 + a % 2
mod_step k a =
    let w : ℕ = 2 ^ suc k in
    let q : ℕ = a / 2 / 2 ^ k in
    let low : ℕ = a / 2 % 2 ^ k * 2 + a % 2 in
    let split : a ≡ q * w + low =
      omega (arith, pow_step k, div-add-mod' (a / 2) (2 ^ k), ap (λ (t : ℕ). q * t) (pow_step k)) in
    let small : low < w = omega (arith, pow_step k, mod-lt (a / 2) (pow_pos k)) in
    ap (λ (t : ℕ). t % w) split ∙ mul-add-mod_self_right q w low ∙ mod-eq_of_lt small

-- A mask of k ones keeps the k low bits.
pub bit_and-mask : (k a : ℕ) → bit_and a (2 ^ k - 1) ≡ a % 2 ^ k
bit_and-mask zero a = omega (arith, no_common_digit a a (omega arith))
bit_and-mask (suc k) a =
    let half : (2 ^ suc k - 1) / 2 ≡ 2 ^ k - 1 = omega (arith, pow_step k, pow_pos k) in
    omega (
      arith,
      bit_and_step a (2 ^ suc k - 1),
      ap (λ (m : ℕ). bit_and (a / 2) m) half,
      bit_and-mask k (a / 2),
      mod_step k a,
      pow_step k,
      pow_pos k,
    )

pub bit_or_step : (a b : ℕ) → bit_or a b ≡ bit_or (a / 2) (b / 2) * 2 + max (a % 2) (b % 2)
bit_or_step zero b = let ends = bit_or-bitwise 0 b in omega (arith, bit_or-bitwise 0 (b / 2), ends)
bit_or_step (suc a) b =
    let once = walk_once all_left max a b in
    omega (arith, bit_or-bitwise (suc a / 2) (b / 2), once, bit_or-bitwise (suc a) b)

-- Fields that do not overlap add up.
pub bit_or-disjoint : (k a c : ℕ) → a < 2 ^ k → bit_or a (c * 2 ^ k) ≡ a + c * 2 ^ k
bit_or-disjoint zero a c h =
    let e : a ≡ 0 = omega arith in rw e (bit_or-bitwise 0 (c * 2 ^ 0) ∙ omega arith)
bit_or-disjoint (suc k) a c h =
    let double : c * 2 ^ suc k ≡ 2 * (c * 2 ^ k) =
      omega (arith, ap (λ (t : ℕ). c * t) (pow_step k)) in
    let half : c * 2 ^ suc k / 2 ≡ c * 2 ^ k = omega (arith, double) in
    omega (
      arith,
      bit_or_step a (c * 2 ^ suc k),
      ap (λ (m : ℕ). bit_or (a / 2) m) half,
      bit_or-disjoint k (a / 2) c (omega (arith, pow_step k)),
      double,
    )
