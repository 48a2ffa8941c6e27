-- ===== src/Align.antt =====
-- lib/align.c on 64-bit words: `~x` is `2^64 - 1 - x`.
use bare_metal_os.Base.{ℕ, ◌+◌, ◌-◌, ◌*◌, ◌/◌, ◌%◌, ◌≤◌, ◌<◌, bit_and, ◌≡◌, sym, ap, ◌∙◌, arith}
use bare_metal_os.Base.Words.{word_mod, int_mod, add64, sub64}
use native.Mathlib.Nat.{mod-lt, div-add-mod', mul-mod_left}
use bare_metal_os.Base.Bits.{pow2, pow2_pos, pow2_mono, bit_and-high, pow2-add}

abbrev pub not64 : ℕ → ℕ
not64 x = word_mod - 1 - x

pub align_down_ul : ℕ → ℕ → ℕ
align_down_ul value alignment = bit_and value (not64 (sub64 alignment 1))

unfoldable pub align_up_ul : ℕ → ℕ → ℕ
align_up_ul value alignment = bit_and (sub64 (add64 value alignment) 1) (not64 (sub64 alignment 1))

-- `align_up_int` on the patterns of 32-bit `int`s.
pub align_up_int : ℕ → ℕ → ℕ
align_up_int value alignment =
    bit_and ((value + alignment + int_mod - 1) % int_mod)
      (int_mod - 1 - (alignment + int_mod - 1) % int_mod)

-- The mask `~(2^k - 1)` as the code computes it.
not64-mask : (k w : ℕ) → k + w ≡ 64 → not64 (sub64 (pow2 k) 1) ≡ pow2 k * pow2 w - pow2 k
not64-mask k w e = omega (arith, ap pow2 e, pow2-add k w, pow2_pos k, pow2_mono k 64 (omega arith))

product-word : (k w : ℕ) → k + w ≡ 64 → pow2 k * pow2 w ≡ word_mod
product-word k w e = sym (pow2-add k w) ∙ ap pow2 e

sub-mod-mod : (x d : ℕ) → (x - x % d) % d ≡ 0
sub-mod-mod x d =
    let e : x - x % d ≡ x / d * d = omega (arith, div-add-mod' x d) in rw e (mul-mod_left (x / d) d)

-- At a power of two as alignment, `align_down_ul` rounds a word down to a multiple of it.
pub align_down_ul_lem :
    (k w a : ℕ) → k + w ≡ 64 → a < word_mod → align_down_ul a (pow2 k) ≡ a - a % pow2 k
unfolding align_down_ul
align_down_ul_lem k w a e h = rw (not64-mask k w e) (bit_and-high k w a (rw (product-word k w e) h))

-- `align_up_ul` rounds a word up to the next multiple, if the sum does not wrap round.
pub align_up_ul_lem :
    (k w a : ℕ)
    → k + w ≡ 64
    → a + pow2 k ≤ word_mod
    → let u = align_up_ul a (pow2 k) in (u % pow2 k ≡ 0) × (a ≤ u) × (u < a + pow2 k)
unfolding align_up_ul
align_up_ul_lem k w a e h =
    let x : ℕ = a + pow2 k - 1 in
    let inner : sub64 (add64 a (pow2 k)) 1 ≡ x = omega (arith, pow2_pos k) in
    let small : x < pow2 k * pow2 w = rw (product-word k w e) (omega (arith, pow2_pos k)) in
    let below : x % pow2 k < pow2 k = mod-lt x (pow2_pos k) in
    rw (inner, not64-mask k w e, bit_and-high k w x small)
      (sub-mod-mod x (pow2 k), omega (arith, pow2_pos k), omega (arith, pow2_pos k))

-- `align_up_int` to 4 rounds a size up to the next multiple of 4.
pub align_up_int_lem : (v : ℕ) → v + 4 ≤ int_mod → align_up_int v 4 ≡ (v + 3) / 4 * 4
unfolding align_up_int
align_up_int_lem v l =
    let inner : (v + 4 + int_mod - 1) % int_mod ≡ v + 3 = omega arith in
    let small : v + 3 < pow2 2 * pow2 30 = omega arith in
    rw (inner, bit_and-high 2 30 (v + 3) small) (omega arith)
