-- ===== src/Stdio.antt =====
-- lib/stdio.c: printing numbers. What is printed is the list of characters that uart_putc is called
-- with, in order; `buf` is the list of the characters in it, the last first, as they are printed.
mod Digits
mod Tests
use bare_metal_os.Base.{
  ℕ, zero, suc, ◌+◌, ◌-◌, ◌/◌, ◌%◌, ◌^◌, List, [], ◌∷◌, ltb, ◌==◌, if◌then◌else◌, length,
}
use bare_metal_os.Base.Words.{int_mod}

abbrev pub digit_char : ℕ → ℕ
digit_char rem = if ltb rem 10 then 48 + rem else 97 + rem - 10

-- while (num > 0) on fuel, which a number of so many bits does not use up
unfoldable pub push_digits : ℕ → ℕ → ℕ → List ℕ → List ℕ
push_digits zero base num buf = buf
push_digits (suc fuel) base num buf =
    let rest = push_digits fuel base (num / base) (digit_char (num % base) ∷ buf) in
    if num == 0 then buf else rest

-- while (i < width), with the turns that are left
unfoldable pub push_pad : ℕ → ℕ → List ℕ → List ℕ
push_pad zero pad buf = buf
push_pad (suc n) pad buf = push_pad n pad (pad ∷ buf)

abbrev pub start_digits : ℕ → ℕ → ℕ → List ℕ
start_digits bits num base = if num == 0 then 48 ∷ [] else push_digits bits base num []

unfoldable pub print_uint : ℕ → ℕ → ℕ → ℕ → List ℕ
print_uint num base width pad =
    let buf : List ℕ = start_digits 32 num base in push_pad (width - length buf) pad buf

-- On the pattern of an `int`.
unfoldable pub print_int : ℕ → ℕ → ℕ → List ℕ
print_int num width pad =
    if ltb num (2 ^ 31)
    then print_uint num 10 width pad
    else 45 ∷ print_uint (int_mod - num) 10 (width - 1) pad

unfoldable pub print_long : ℕ → ℕ → ℕ → ℕ → List ℕ
print_long num base width pad =
    let buf : List ℕ = start_digits 64 num base in push_pad (width - length buf) pad buf
