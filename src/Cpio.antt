-- ===== src/Cpio.antt =====
-- lib/cpio.c: the initial RAM disk, an archive of cpio headers, names and data in memory.
mod Archive
mod Find
mod Tests
use bare_metal_os.Base.{
  ℕ, zero, suc, ◌+◌, ◌-◌, ◌*◌, ◌%◌, Bool, true, not, ◌&&◌, ◌||◌, Option, none, some, List, [], ◌∷◌,
  leb, ◌==◌, if◌then◌else◌,
}
use bare_metal_os.Base.Words.{int_mod, add64, extend}
use bare_metal_os.Align.{align_up_int}

-- `hextoi` on the text at an address, from a value `r` on: a character below '0' is not passed.
unfoldable pub hextoi : (ℕ → ℕ) → ℕ → ℕ → ℕ → ℕ
hextoi memory s zero r = r
hextoi memory s (suc n) r =
    let c : ℕ = memory s in
    let shifted : ℕ = r * 16 % int_mod in
    let value : ℕ =
      if leb 65 c
      then (shifted + (c - 65 + 10)) % int_mod
      else if leb 48 c
      then (shifted + (c - 48)) % int_mod
      else shifted in
    let next : ℕ = if leb 48 c then s + 1 else s in hextoi memory next n value

-- sizeof(struct cpio_t), and the offsets of two of its fields.
abbrev pub header_size : ℕ
header_size = 110

abbrev pub filesize_at : ℕ
filesize_at = 54

abbrev pub namesize_at : ℕ
namesize_at = 94

-- "070701" and "TRAILER!!!"
abbrev pub magic : List ℕ
magic = 48 ∷ 55 ∷ 48 ∷ 55 ∷ 48 ∷ 49 ∷ []

abbrev pub trailer : List ℕ
trailer = 84 ∷ 82 ∷ 65 ∷ 73 ∷ 76 ∷ 69 ∷ 82 ∷ 33 ∷ 33 ∷ 33 ∷ []

-- strncmp(text, chars, n) == 0 for the n characters of a list.
unfoldable pub has_prefix : (ℕ → ℕ) → ℕ → List ℕ → Bool
has_prefix memory addr [] = true
has_prefix memory addr (c ∷ cs) = (memory addr == c) && has_prefix memory (addr + 1) cs

-- strcmp(text, chars) == 0
unfoldable pub is_text : (ℕ → ℕ) → ℕ → List ℕ → Bool
is_text memory addr [] = memory addr == 0
is_text memory addr (c ∷ cs) = (memory addr == c) && is_text memory (addr + 1) cs

-- Where the data of an entry starts, and the next header.
abbrev pub data_of : ℕ → ℕ → ℕ
data_of ptr namesize = add64 ptr (extend (align_up_int ((header_size + namesize) % int_mod) 4))

abbrev pub next_header : ℕ → ℕ → ℕ → ℕ
next_header ptr namesize filesize = add64 ptr (
    extend
      ((align_up_int ((header_size + namesize) % int_mod) 4 + align_up_int filesize 4) % int_mod))

-- while (1) of `initrd_get_file`, on fuel: the data and the size of a file, or none for -1. The
-- outer `none` is an archive that is longer than the fuel.
unfoldable pub initrd_get_file : ℕ → (ℕ → ℕ) → ℕ → List ℕ → Option (Option (ℕ × ℕ))
initrd_get_file zero memory ptr filename = none
initrd_get_file (suc fuel) memory ptr filename =
    let namesize : ℕ = hextoi memory (ptr + namesize_at) 8 0 in
    let filesize : ℕ = hextoi memory (ptr + filesize_at) 8 0 in
    let name : ℕ = ptr + header_size in
    let rest : Option (Option (ℕ × ℕ)) =
      initrd_get_file fuel memory (next_header ptr namesize filesize) filename in
    if not (has_prefix memory ptr magic)
    then some none
    else if is_text memory name trailer
    then some none
    else if is_text memory name filename
    then some (some (data_of ptr namesize, filesize))
    else rest

-- while (1) of `initrd_list`, on fuel: the sizes and the addresses of the names that are printed.
unfoldable pub initrd_list : ℕ → (ℕ → ℕ) → ℕ → List (ℕ × ℕ)
initrd_list zero memory ptr = []
initrd_list (suc fuel) memory ptr =
    let namesize : ℕ = hextoi memory (ptr + namesize_at) 8 0 in
    let filesize : ℕ = hextoi memory (ptr + filesize_at) 8 0 in
    let name : ℕ = ptr + header_size in
    let rest : List (ℕ × ℕ) = initrd_list fuel memory (next_header ptr namesize filesize) in
    if not (has_prefix memory ptr magic) || is_text memory name trailer
    then []
    else (filesize, name) ∷ rest
