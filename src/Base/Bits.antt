-- ===== src/Base/Bits.antt =====
-- Powers of two, and the bit operations at masks: the code's `&`, `^` and `~` on block numbers.
pub mod Or
use Prim.Native.Nat.{differ, digits, bit_and-bitwise, bit_xor-bitwise}
use native.Mathlib.Decide.{ℕ_discrete}
use native.Mathlib.Nat.{
  mod-lt, mod-le, mod-eq_of_lt, div-add-mod', mul-add-mod_self_right, add-mod_right,
}
use bare_metal_os.Base.{
  ℕ, zero, suc, ◌+◌, ◌-◌, ◌*◌, ◌/◌, ◌%◌, ◌≤◌, ◌<◌, bit_and, bit_xor, min, ◌≡◌, refl, sym, ap, ◌∙◌,
  arith,
}

-- `1UL << k`
abbrev pub pow2 : ℕ → ℕ
pow2 zero = 1
pow2 (suc k) = 2 * pow2 k

pub pow2_pos : (k : ℕ) → 0 < pow2 k
pow2_pos zero = omega arith
pow2_pos (suc k) = omega (arith, pow2_pos k)

pub pow2_mono : (j k : ℕ) → j ≤ k → pow2 j ≤ pow2 k
pow2_mono zero k h = pow2_pos k
pow2_mono (suc j) zero h = absurd (omega arith)
pow2_mono (suc j) (suc k) h = omega (arith, pow2_mono j k (omega arith))

-- The library's digit recursion at any amount of fuel that is enough, and its law for the lowest
-- digit: `z` is what is left when the first number has run out, `f` works on two digits.
module _ (z : ℕ → ℕ) (f : ℕ → ℕ → ℕ) where
  digits-fuel : (n m a b : ℕ) → a ≤ n → a ≤ m → digits z f n a b ≡ digits z f m a b
  digits-fuel zero zero a b p q = refl
  digits-fuel zero (suc m) zero b p q = refl
  digits-fuel (suc n) zero zero b p q = refl
  digits-fuel (suc n) (suc m) zero b p q = refl
  digits-fuel zero m (suc a) b p q = absurd (omega arith)
  digits-fuel (suc n) zero (suc a) b p q = absurd (omega arith)
  digits-fuel (suc n) (suc m) (suc a) b p q =
      let rest : digits z f n (suc a / 2) (b / 2) ≡ digits z f m (suc a / 2) (b / 2) =
        digits-fuel n m (suc a / 2) (b / 2) (omega arith) (omega arith) in
      omega (arith, rest)

  pub digits_step :
      ((b : ℕ) → z b ≡ z (b / 2) * 2 + f 0 (b % 2))
      → (a b : ℕ) → digits z f a a b ≡ digits z f (a / 2) (a / 2) (b / 2) * 2 + f (a % 2) (b % 2)
  digits_step low zero b = low b
  digits_step low (suc a) b =
      omega (arith, digits-fuel a (suc a / 2) (suc a / 2) (b / 2) (omega arith) (omega arith))

pub bit_and_step : (a b : ℕ) → bit_and a b ≡ bit_and (a / 2) (b / 2) * 2 + min (a % 2) (b % 2)
bit_and_step a b = omega (
  arith,
  bit_and-bitwise a b,
  bit_and-bitwise (a / 2) (b / 2),
  digits_step (λ _. 0) min (λ _. omega arith) a b,
)

pub bit_xor_step : (a b : ℕ) → bit_xor a b ≡ bit_xor (a / 2) (b / 2) * 2 + differ (a % 2) (b % 2)
bit_xor_step a b = omega (
  arith,
  bit_xor-bitwise a b,
  bit_xor-bitwise (a / 2) (b / 2),
  digits_step (λ b. b) differ (λ b. omega arith) a b,
)

bit_and-none_fuel : (n a : ℕ) → a ≤ n → bit_and a 0 ≡ 0
bit_and-none_fuel zero a h = let e : a ≡ 0 = omega arith in rw e
bit_and-none_fuel (suc n) zero h = refl
bit_and-none_fuel (suc n) (suc a) h =
    omega (arith, bit_and_step (suc a) 0, bit_and-none_fuel n (suc a / 2) (omega arith))

bit_and-none : (a : ℕ) → bit_and a 0 ≡ 0
bit_and-none a = bit_and-none_fuel a a (omega arith)

differ_zero : (x : ℕ) → differ x 0 ≡ x
differ_zero zero = refl
differ_zero (suc x) = refl

differ_one : (x : ℕ) → x < 2 → differ x 1 ≡ 1 - x
differ_one zero h = refl
differ_one (suc zero) h = refl
differ_one (suc (suc x)) h = absurd (omega arith)

bit_xor-none_fuel : (n a : ℕ) → a ≤ n → bit_xor a 0 ≡ a
bit_xor-none_fuel zero a h = let e : a ≡ 0 = omega arith in rw e
bit_xor-none_fuel (suc n) zero h = refl
bit_xor-none_fuel (suc n) (suc a) h = omega (
  arith,
  bit_xor_step (suc a) 0,
  bit_xor-none_fuel n (suc a / 2) (omega arith),
  differ_zero (suc a % 2),
)

bit_xor-none : (a : ℕ) → bit_xor a 0 ≡ a
bit_xor-none a = bit_xor-none_fuel a a (omega arith)

pub mod_unique : (d q r : ℕ) → r < d → (q * d + r) % d ≡ r
mod_unique d q r h = mul-add-mod_self_right q d r ∙ mod-eq_of_lt h

-- A multiple of `d` is its quotient times `d`.
pub div-mul_of_mod : (a d : ℕ) → a % d ≡ 0 → a / d * d ≡ a
div-mul_of_mod a d h = omega (arith, div-add-mod' a d)

mod_double : (a d : ℕ) → 0 < d → a / 2 % d * 2 + a % 2 ≡ a % (2 * d)
mod_double a d h =
    let r : ℕ = a / 2 % d in
    let q : ℕ = a / 2 / d in
    let e : a ≡ q * (2 * d) + (r * 2 + a % 2) = omega (arith, div-add-mod' (a / 2) d) in
    sym (
      ap (λ x. x % (2 * d)) e
      ∙ mod_unique (2 * d) q (r * 2 + a % 2) (omega (arith, mod-lt (a / 2) h)))

-- `x & (2^k - 1)` is the remainder.
pub bit_and-mask : (k a : ℕ) → bit_and a (pow2 k - 1) ≡ a % pow2 k
bit_and-mask zero a = omega (arith, bit_and_step a 0, bit_and-none (a / 2))
bit_and-mask (suc k) a =
    let half : (2 * pow2 k - 1) / 2 ≡ pow2 k - 1 = omega (arith, pow2_pos k) in
    let odd : (2 * pow2 k - 1) % 2 ≡ 1 = omega (arith, pow2_pos k) in
    let step = bit_and_step a (2 * pow2 k - 1) in
    let rest : bit_and (a / 2) ((2 * pow2 k - 1) / 2) ≡ a / 2 % pow2 k =
      rw half (bit_and-mask k (a / 2)) in
    omega (arith, step, rest, odd, mod_double a (pow2 k) (pow2_pos k))

-- `x & ~(2^k - 1)` on a word of `k + w` bits rounds down.
pub bit_and-high :
    (k w a : ℕ) → a < pow2 k * pow2 w → bit_and a (pow2 k * pow2 w - pow2 k) ≡ a - a % pow2 k
bit_and-high zero w a h =
    let e : 1 * pow2 w - 1 ≡ pow2 w - 1 = omega arith in
    rw e (omega (arith, bit_and-mask w a, mod-eq_of_lt {n = a} {m = pow2 w} (omega arith)))
bit_and-high (suc k) w a h =
    let m : ℕ = pow2 k * pow2 w - pow2 k in
    let e : 2 * pow2 k * pow2 w - (2 * pow2 k) ≡ m * 2 = omega (arith, pow2_pos w) in
    let half : m * 2 / 2 ≡ m = omega arith in
    let rest : bit_and (a / 2) (m * 2 / 2) ≡ a / 2 - a / 2 % pow2 k =
      rw half (bit_and-high k w (a / 2) (omega arith)) in
    rw e (
      omega (
        arith,
        bit_and_step a (m * 2),
        rest,
        mod_double a (pow2 k) (pow2_pos k),
        mod-le (a / 2) (pow2 k),
      ))

-- `x ^ (1 << k)` at a multiple of 2^k is the other half of the block of twice the size.
pub bit_xor-pow2 : (k q : ℕ) → bit_xor (q * pow2 k) (pow2 k) ≡ (q / 2 * 2 + (1 - q % 2)) * pow2 k
bit_xor-pow2 zero q =
    let e : q * 1 ≡ q = omega arith in
    rw e (omega (arith, bit_xor_step q 1, bit_xor-none (q / 2), differ_one (q % 2) (omega arith)))
bit_xor-pow2 (suc k) q =
    let a : ℕ = q * (2 * pow2 k) in
    let ha : a / 2 ≡ q * pow2 k = omega arith in
    let hb : (2 * pow2 k) / 2 ≡ pow2 k = omega arith in
    let la : a % 2 ≡ 0 = omega arith in
    let lb : (2 * pow2 k) % 2 ≡ 0 = omega arith in
    bit_xor_step a (2 * pow2 k) ∙ rw (ha, hb, la, lb, bit_xor-pow2 k q) (omega arith)

pub pow2-add : (j k : ℕ) → pow2 (j + k) ≡ pow2 j * pow2 k
pow2-add zero k = let e : 0 + k ≡ k = omega arith in rw e (omega arith)
pow2-add (suc j) k =
    let e : suc j + k ≡ suc (j + k) = omega arith in rw e (omega (arith, pow2-add j k))

-- Half of an aligned block is aligned, and so is the other half.
pub aligned_half : (a d : ℕ) → 0 < d → a % (2 * d) ≡ 0 → (a % d ≡ 0) × ((a + d) % d ≡ 0)
aligned_half a d pos h =
    let e : a ≡ a / (2 * d) * 2 * d + 0 = omega (arith, div-add-mod' a (2 * d)) in
    let lo : a % d ≡ 0 = ap (λ x. x % d) e ∙ mod_unique d (a / (2 * d) * 2) 0 pos in
    (lo, add-mod_right a d ∙ lo)

-- A multiple of a power of two is one of every smaller power.
pub aligned_le : (j k a : ℕ) → j ≤ k → a % pow2 k ≡ 0 → a % pow2 j ≡ 0
aligned_le j zero a le h = let e : j ≡ 0 = omega arith in rw e h
aligned_le j (suc k) a le h = elim (ℕ_discrete j (suc k)) [
  | yes e ↦ rw e h
  | no ne ↦ aligned_le j k a (omega arith) (aligned_half a (pow2 k) (pow2_pos k) h).0
]
