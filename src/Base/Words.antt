-- ===== src/Base/Words.antt =====
-- Machine words as native numbers: `unsigned long` below 2^64, `int` by its pattern below 2^32.
use bare_metal_os.Base.{ℕ, ◌+◌, ◌-◌, ◌%◌, ◌^◌, ltb, if◌then◌else◌}

abbrev pub word_mod : ℕ
word_mod = 2 ^ 64

abbrev pub int_mod : ℕ
int_mod = 2 ^ 32

-- The pattern of the `int` -1.
abbrev pub minus_one : ℕ
minus_one = int_mod - 1

abbrev pub add64 : ℕ → ℕ → ℕ
add64 a b = (a + b) % word_mod

abbrev pub sub64 : ℕ → ℕ → ℕ
sub64 a b = (a + word_mod - b) % word_mod

abbrev pub inc32 : ℕ → ℕ
inc32 a = (a + 1) % int_mod

abbrev pub dec32 : ℕ → ℕ
dec32 a = (a + int_mod - 1) % int_mod

-- An `int` as a `long`.
abbrev pub extend : ℕ → ℕ
extend a = if ltb a (2 ^ 31) then a else a + word_mod - int_mod
