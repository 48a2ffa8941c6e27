-- ===== src/Strings.antt =====
-- lib/string.c: the functions that write memory, and the comparison of strings. Memory is a map from
-- addresses to bytes.
pub mod Copy
mod Tests
use bare_metal_os.Base.{ℕ, zero, suc, ◌+◌, ◌%◌, not, ◌&&◌, ◌==◌, if◌then◌else◌, update}

abbrev pub Memory : Type 0
Memory = ℕ → ℕ

-- while (n--) *p++ = (unsigned char)c
pub memset : ℕ → ℕ → ℕ → Memory → Memory
memset s c zero mem = mem
memset s c (suc n) mem = memset (s + 1) c n (update mem s (c % 256))

-- while (n--) *d++ = *s++
pub memcpy : ℕ → ℕ → ℕ → Memory → Memory
memcpy d s zero mem = mem
memcpy d s (suc n) mem = memcpy (d + 1) (s + 1) n (update mem d (mem s))

-- while (n && (*d++ = *src++)): where it stops, how much of `n` is left, and the memory.
pub copy_string : ℕ → ℕ → ℕ → Memory → ℕ × ℕ × Memory
copy_string d s zero mem = (d, zero, mem)
copy_string d s (suc n) mem =
    let mem' = update mem d (mem s) in
    let rest = copy_string (d + 1) (s + 1) n mem' in
    if mem s == 0 then (d + 1, suc n, mem') else rest

pub strncpy : ℕ → ℕ → ℕ → Memory → Memory
strncpy dest src n mem = let (d, left, mem') = copy_string dest src n mem in memset d 0 left mem'

-- `strncmp`: the sign of the difference is that of the first bytes that differ.
pub strncmp : ℕ → ℕ → ℕ → Memory → ℕ × ℕ
strncmp s1 s2 zero mem = (0, 0)
strncmp s1 s2 (suc n) mem =
    let rest = strncmp (s1 + 1) (s2 + 1) n mem in
    if not (mem s1 == 0) && (mem s1 == mem s2) then rest else (mem s1, mem s2)
