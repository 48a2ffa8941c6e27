-- ===== src/Stdio/Digits.antt =====
-- lib/stdio.c: what is printed for a number is its numeral.
use bare_metal_os.Base.{
  ℕ, zero, suc, ◌+◌, ◌-◌, ◌*◌, ◌/◌, ◌%◌, ◌^◌, ◌≤◌, ◌<◌, ◌≡◌, refl, ap, ◌∙◌, ◌⊎◌, false, List, [],
  ◌∷◌, arith, ltb, ◌==◌, if◌then◌else◌, length,
}
use bare_metal_os.Base.Words.{word_mod, int_mod}
use native.Mathlib.Nat.{mod-lt, div-add-mod', div-mul-le_self, mul-le-mul_left}
use bare_metal_os.Base.Bits.{pow2}
use bare_metal_os.Stdio.{
  digit_char, push_digits, push_pad, start_digits, print_uint, print_int, print_long,
}

abbrev pub digit_of : ℕ → ℕ
digit_of c = if ltb c 58 then c - 48 else c - 87

-- The number that a numeral stands for, read on from `r`; spaces are passed over.
abbrev pub read_number : ℕ → ℕ → List ℕ → ℕ
read_number base r [] = r
read_number base r (c ∷ cs) =
    if c == 32 then read_number base r cs else read_number base (r * base + digit_of c) cs

digit_char-read :
    (base r d : ℕ) (cs : List ℕ)
    → d < 16
    → read_number base r (digit_char d ∷ cs) ≡ read_number base (r * base + d) cs
digit_char-read base r d cs less =
    let same : digit_of (digit_char d) ≡ d = ground arith in
    let printed : (digit_char d == 32) ≡ false = ground arith in rw (printed, same) refl

push_pad-read :
    (base n pad : ℕ) (buf : List ℕ)
    → (pad ≡ 32) ⊎ (pad ≡ 48)
    → read_number base 0 (push_pad n pad buf) ≡ read_number base 0 buf
unfolding push_pad
push_pad-read base zero pad buf either = refl
push_pad-read base (suc n) pad buf either =
    push_pad-read base n pad (pad ∷ buf) either ∙ ground arith

div-half : (num base half : ℕ) → 2 ≤ base → num < 2 * half → num / base < half
div-half num base half two less =
    omega (arith, div-mul-le_self num base, mul-le-mul_left (num / base) two)

suc-nonzero : (m : ℕ) → (suc m == 0) ≡ false
suc-nonzero m = ground arith

push_digits-read :
    (fuel base num : ℕ) (buf : List ℕ)
    → 2 ≤ base
    → base ≤ 16
    → num < pow2 fuel
    → read_number base 0 (push_digits fuel base num buf) ≡ read_number base num buf
unfolding push_digits
push_digits-read zero base num buf two most less =
    let none_left : num ≡ 0 = omega arith in rw none_left refl
push_digits-read (suc fuel) base zero buf two most less = refl
push_digits-read (suc fuel) base (suc m) buf two most less =
    let num : ℕ = suc m in
    let half = div-half num base (pow2 fuel) two (omega arith) in
    let later =
      push_digits-read fuel base (num / base) (digit_char (num % base) ∷ buf) two most half in
    let below : num % base < 16 = omega (arith, mod-lt num {m = base} (omega arith)) in
    let digit = digit_char-read base (num / base) (num % base) buf below in
    rw (suc-nonzero m) (later ∙ digit ∙ ap (λ n. read_number base n buf) (div-add-mod' num base))

length-push_digits :
    (fuel base num : ℕ) (buf : List ℕ) → length (push_digits fuel base num buf) ≤ fuel + length buf
unfolding push_digits
length-push_digits zero base num buf = omega arith
length-push_digits (suc fuel) base num buf =
    ground (arith, length-push_digits fuel base (num / base) (digit_char (num % base) ∷ buf))

length-push_pad : (n pad : ℕ) (buf : List ℕ) → length (push_pad n pad buf) ≡ n + length buf
unfolding push_pad
length-push_pad zero pad buf = omega arith
length-push_pad (suc n) pad buf = omega (arith, length-push_pad n pad (pad ∷ buf))

start_digits-read :
    (bits base num : ℕ)
    → 2 ≤ base
    → base ≤ 16
    → num < pow2 bits
    → read_number base 0 (start_digits bits num base) ≡ num
start_digits-read bits base zero two most less = omega arith
start_digits-read bits base (suc m) two most less =
    rw (suc-nonzero m) (push_digits-read bits base (suc m) [] two most less)

length-start_digits : (bits base num : ℕ) → 0 < bits → length (start_digits bits num base) ≤ bits
length-start_digits bits base num pos = ground (arith, length-push_digits bits base num [])

length-padded :
    (width pad size : ℕ) (buf : List ℕ)
    → width ≤ size
    → length buf ≤ size
    → length (push_pad (width - length buf) pad buf) ≤ size
length-padded width pad size buf fits short =
    omega (arith, length-push_pad (width - length buf) pad buf)

-- What holds of the characters that are printed for a number.
abbrev pub IsPrinted : ℕ → ℕ → ℕ → ℕ → List ℕ → Type 0
IsPrinted size num base width out =
    (read_number base 0 out ≡ num) × (width ≤ length out) × (length out ≤ size)

start_digits-IsPrinted :
    (size num base width pad : ℕ)
    → 0 < size
    → num < pow2 size
    → 2 ≤ base
    → base ≤ 16
    → (pad ≡ 32) ⊎ (pad ≡ 48)
    → width ≤ size
    → let buf = start_digits size num base in
      IsPrinted size num base width (push_pad (width - length buf) pad buf)
start_digits-IsPrinted size num base width pad pos less two most either fits =
    let buf = start_digits size num base in
    (
      push_pad-read base (width - length buf) pad buf either
          ∙ start_digits-read size base num two most less,
      omega (arith, length-push_pad (width - length buf) pad buf),
      length-padded width pad size buf fits (length-start_digits size base num pos),
    )

-- For a number of 32 bits, a width of at most 32, the size of `buf`, a base from 2 to 16 and
-- padding by spaces or zeros, `print_uint` prints a text that reads as the number (spaces passed
-- over), as long as the width at least, and no longer than `buf`.
pub print_uint_lem :
    (num base width pad : ℕ)
    → num < int_mod
    → 2 ≤ base
    → base ≤ 16
    → (pad ≡ 32) ⊎ (pad ≡ 48)
    → width ≤ 32
    → IsPrinted 32 num base width (print_uint num base width pad)
unfolding print_uint
print_uint_lem num base width pad less =
    start_digits-IsPrinted 32 num base width pad (omega arith) less

-- For a number of 64 bits, a width of at most 64, the size of `buf`, a base from 2 to 16 and
-- padding by spaces or zeros, `print_long` prints a text that reads as the number (spaces passed
-- over), as long as the width at least, and no longer than `buf`.
pub print_long_lem :
    (num base width pad : ℕ)
    → num < word_mod
    → 2 ≤ base
    → base ≤ 16
    → (pad ≡ 32) ⊎ (pad ≡ 48)
    → width ≤ 64
    → IsPrinted 64 num base width (print_long num base width pad)
unfolding print_long
print_long_lem num base width pad less =
    start_digits-IsPrinted 64 num base width pad (omega arith) less

-- A negative `int` is printed as the sign before its absolute value.
pub print_int-negative :
    (num width pad : ℕ)
    → 2 ^ 31 ≤ num
    → num < int_mod
    → (pad ≡ 32) ⊎ (pad ≡ 48)
    → width ≤ 33
    → (out : List ℕ) × (print_int num width pad ≡ 45 ∷ out)
      × IsPrinted 32 (int_mod - num) 10 (width - 1) out
unfolding print_int
print_int-negative num width pad neg less either fits =
    let test : ltb num (2 ^ 31) ≡ false = ground arith in
    (
      print_uint (int_mod - num) 10 (width - 1) pad,
      rw test refl,
      print_uint_lem (int_mod - num) 10 (width - 1) pad (omega arith) (omega arith) (omega arith)
          either (omega arith),
    )
