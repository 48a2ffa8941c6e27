-- ===== src/Stdio/Tests.antt =====
-- lib/stdio.c: printing 255 in hexadecimal.
use bare_metal_os.Base.{◌-◌, ◌≡◌, refl, inr, [], ◌∷◌, arith}
use bare_metal_os.Stdio.{push_digits, push_pad, print_uint, print_int, print_long}
use bare_metal_os.Stdio.Digits.{IsPrinted, print_long_lem}

print_long_lem_example : IsPrinted 64 255 16 4 (print_long 255 16 4 48)
print_long_lem_example =
    print_long_lem 255 16 4 48 (omega arith) (omega arith) (omega arith) (inr refl) (omega arith)

zeros_before : print_long 255 16 4 48 ≡ 48 ∷ 48 ∷ 102 ∷ 102 ∷ []
unfolding print_long push_digits push_pad
zeros_before = refl

-- The sign stands before the spaces.
sign_first : print_int (4294967296 - 42) 5 32 ≡ 45 ∷ 32 ∷ 32 ∷ 52 ∷ 50 ∷ []
unfolding print_int print_uint push_digits push_pad
sign_first = refl
