-- ===== src/Strings/Tests.antt =====
-- "ab" at address 100.
use bare_metal_os.Base.{◌+◌, ◌≡◌, refl, arith, ◌==◌, if◌then◌else◌}
use bare_metal_os.Strings.{Memory, memset, copy_string, strncpy, strncmp}
use bare_metal_os.Strings.Copy.{strncpy-overrun, HasLength}

abbrev ab : Memory
ab = λ x. if x == 100 then 97 else if x == 101 then 98 else if x == 102 then 0 else 7

ab-HasLength : HasLength ab 100 2
ab-HasLength = record { characters = λ i l. ground arith; ends = refl }

five_bytes : strncpy 200 100 4 ab 204 ≡ 0
unfolding strncpy copy_string memset
five_bytes = refl

before_five : ab 204 ≡ 7
before_five = refl

differ : strncmp 100 101 2 ab ≡ (97, 98)
unfolding strncmp
differ = refl

strncpy-overrun_example : strncpy 200 100 4 ab (200 + 4) ≡ 0
strncpy-overrun_example = strncpy-overrun 200 100 4 2 ab ab-HasLength (omega arith) (omega arith)
