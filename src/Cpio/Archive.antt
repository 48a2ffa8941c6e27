-- ===== src/Cpio/Archive.antt =====
-- lib/cpio.c: a file that is packed in an archive is found.
use bare_metal_os.Base.{
  ℕ, suc, ◌+◌, ◌*◌, ◌≤◌, ◌<◌, ◌≡◌, refl, ◌∙◌, List, [], ◌∷◌, arith, ltb, if◌then◌else◌, length,
}
use bare_metal_os.Base.Words.{int_mod}
use bare_metal_os.Cpio.{hextoi, is_text}
use bare_metal_os.Vfs.Paths.{same_chars}

-- A digit as the archive writes it, 0 to 9 and A to F.
abbrev pub hex_char : ℕ → ℕ
hex_char d = if ltb d 10 then 48 + d else 55 + d

-- The digits of a number, the lowest last, at an address.
abbrev pub Spells : (ℕ → ℕ) → ℕ → List ℕ → Type 0
Spells memory s [] = Unit
Spells memory s (d ∷ ds) = (d < 16) × (memory s ≡ hex_char d) × Spells memory (s + 1) ds

abbrev pub value_of : ℕ → List ℕ → ℕ
value_of r [] = r
value_of r (d ∷ ds) = value_of (r * 16 + d) ds

-- Text with a NUL at its end, at an address.
abbrev pub Holds : (ℕ → ℕ) → ℕ → List ℕ → Type 0
Holds memory s [] = memory s ≡ 0
Holds memory s (c ∷ cs) = (0 < c) × (memory s ≡ c) × Holds memory (s + 1) cs

abbrev pub IsChars : List ℕ → Type 0
IsChars [] = Unit
IsChars (c ∷ cs) = (0 < c) × IsChars cs

value_of-le : (r : ℕ) (ds : List ℕ) → r ≤ value_of r ds
value_of-le r [] = omega arith
value_of-le r (d ∷ ds) = omega (arith, value_of-le (r * 16 + d) ds)

hextoi-digit :
    (memory : ℕ → ℕ) (s r d n : ℕ)
    → d < 16
    → memory s ≡ hex_char d
    → r * 16 + d < int_mod
    → hextoi memory s (suc n) r ≡ hextoi memory (s + 1) n (r * 16 + d)
unfolding hextoi
hextoi-digit memory s r d n small char l = ground arith

pub hextoi-Spells :
    (memory : ℕ → ℕ) (s r : ℕ) (ds : List ℕ)
    → Spells memory s ds
    → value_of r ds < int_mod
    → hextoi memory s (length ds) r ≡ value_of r ds
unfolding hextoi
hextoi-Spells memory s r [] h l = refl
hextoi-Spells memory s r (d ∷ ds) (less, char, rest) l =
    let small : r * 16 + d < int_mod = omega (arith, value_of-le (r * 16 + d) ds, l) in
    let first = hextoi-digit memory s r d (length ds) less char small in
    first ∙ hextoi-Spells memory (s + 1) (r * 16 + d) ds rest l

pub is_text-Holds :
    (memory : ℕ → ℕ) (s : ℕ) (name text : List ℕ)
    → Holds memory s name
    → IsChars text
    → is_text memory s text ≡ same_chars name text
unfolding is_text same_chars
is_text-Holds memory s [] [] h t = ground arith
is_text-Holds memory s [] (c ∷ text) h (pos, t) = ground arith
is_text-Holds memory s (c ∷ name) [] (pos, char, rest) t = ground arith
is_text-Holds memory s (c ∷ name) (d ∷ text) (pos, char, rest) (p, t) =
    rw (char, is_text-Holds memory (s + 1) name text rest t)
