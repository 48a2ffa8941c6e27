-- ===== src/Base/Bits/Or.antt =====
-- The bit operation `|` where it puts flags beside a number.
use Prim.Native.Nat.{max, bit_or-bitwise}
use native.Mathlib.Nat.{div-div-eq-div-mul, div-one}
use bare_metal_os.Base.{
  ℕ, zero, suc, ◌+◌, ◌*◌, ◌/◌, ◌%◌, ◌<◌, bit_and, bit_or, ◌≡◌, refl, sym, ap, ◌∙◌, arith,
}
use bare_metal_os.Base.Bits.{pow2, digits_step, bit_and_step, bit_and-mask}

bit_or_step : (a b : ℕ) → bit_or a b ≡ bit_or (a / 2) (b / 2) * 2 + max (a % 2) (b % 2)
bit_or_step a b = omega (
  arith,
  bit_or-bitwise a b,
  bit_or-bitwise (a / 2) (b / 2),
  digits_step (λ b. b) max (λ b. omega arith) a b,
)

max_zero : (x : ℕ) → max x 0 ≡ x
max_zero x = omega arith

bit_or-none_fuel : (n a : ℕ) → a < suc n → bit_or a 0 ≡ a
bit_or-none_fuel zero a h = let e : a ≡ 0 = omega arith in rw e refl
bit_or-none_fuel (suc n) zero h = refl
bit_or-none_fuel (suc n) (suc a) h = omega (
  arith,
  bit_or_step (suc a) 0,
  bit_or-none_fuel n (suc a / 2) (omega arith),
  max_zero (suc a % 2),
)

bit_or-half : (a b : ℕ) → bit_or a b / 2 ≡ bit_or (a / 2) (b / 2)
bit_or-half a b = omega (arith, bit_or_step a b)

-- Flags below 2^k go when a number is shifted right by k.
pub bit_or-shift : (k a b : ℕ) → b < pow2 k → bit_or a b / pow2 k ≡ a / pow2 k
bit_or-shift zero a b h =
    let e : b ≡ 0 = omega arith in rw e (ap (λ x. x / 1) (bit_or-none_fuel a a (omega arith)))
bit_or-shift (suc k) a b h =
    sym (div-div-eq-div-mul (bit_or a b) 2 (pow2 k))
    ∙ ap (λ x. x / pow2 k) (bit_or-half a b)
    ∙ bit_or-shift k (a / 2) (b / 2) (omega arith)
    ∙ div-div-eq-div-mul a 2 (pow2 k)

pub bit_or-odd : (a : ℕ) → bit_or a 1 % 2 ≡ 1
bit_or-odd a = omega (arith, bit_or_step a 1)

bit_and-half : (a b : ℕ) → bit_and a b / 2 ≡ bit_and (a / 2) (b / 2)
bit_and-half a b = omega (arith, bit_and_step a b)

-- `&` and a shift to the right.
pub bit_and-shift : (k a b : ℕ) → bit_and a b / pow2 k ≡ bit_and (a / pow2 k) (b / pow2 k)
bit_and-shift zero a b = let one = λ (x : ℕ). div-one x in rw (one (bit_and a b), one a, one b) refl
bit_and-shift (suc k) a b =
    sym (div-div-eq-div-mul (bit_and a b) 2 (pow2 k))
    ∙ ap (λ x. x / pow2 k) (bit_and-half a b)
    ∙ bit_and-shift k (a / 2) (b / 2)
    ∙ rw (div-div-eq-div-mul a 2 (pow2 k), div-div-eq-div-mul b 2 (pow2 k)) refl

-- The bit for 4.
pub bit_and-four : (y : ℕ) → bit_and y 4 ≡ y / 4 % 2 * 4
bit_and-four y = omega (
  arith,
  bit_and_step y 4,
  bit_and_step (y / 2) 2,
  bit_and_step (y / 2 / 2) 1,
  bit_and-mask 1 (y / 2 / 2),
)

pub bit_or-four : (y : ℕ) → bit_and (bit_or y 4) 4 ≡ 4
bit_or-four y = omega (
  arith,
  bit_and-four (bit_or y 4),
  bit_or_step y 4,
  bit_or_step (y / 2) 2,
  bit_or_step (y / 2 / 2) 1,
)
