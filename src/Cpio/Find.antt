-- ===== src/Cpio/Find.antt =====
-- lib/cpio.c: an archive with its entries one behind the other, and the search in it.
use bare_metal_os.Base.{
  ℕ, zero, suc, ◌+◌, ◌*◌, ◌/◌, ◌%◌, ◌^◌, ◌<◌, ◌≡◌, refl, sym, ap, ◌∙◌, Bool, true, false, Option,
  none, some, List, [], ◌∷◌, arith, if◌then◌else◌, length,
}
use bare_metal_os.Base.Words.{word_mod, int_mod}
use bare_metal_os.Cpio.{
  hextoi, header_size, filesize_at, namesize_at, magic, trailer, has_prefix, is_text, data_of,
  next_header, initrd_get_file, initrd_list,
}
use bare_metal_os.Cpio.Archive.{Spells, value_of, Holds, IsChars, hextoi-Spells, is_text-Holds}
use bare_metal_os.Align.{align_up_int_lem}
use bare_metal_os.Vfs.Paths.{same_chars}

-- The digits of the two sizes, and the name.
pub record Entry : Type 0 where
  pub name : List ℕ
  pub namesize : List ℕ
  pub filesize : List ℕ

abbrev pub padded : ℕ → ℕ
padded n = (n + 3) / 4 * 4

-- Where the data of an entry at an address starts and ends.
abbrev pub start_of_data : ℕ → Entry → ℕ
start_of_data ptr e = ptr + padded (header_size + value_of 0 e.namesize)

abbrev pub end_of_data : ℕ → Entry → ℕ
end_of_data ptr e = start_of_data ptr e + padded (value_of 0 e.filesize)

-- The header of an entry stands at an address, and its sizes are those of `int`s.
abbrev pub IsEntry : (ℕ → ℕ) → ℕ → Entry → Type 0
IsEntry memory ptr e =
    (has_prefix memory ptr magic ≡ true)
    × (length e.namesize ≡ 8)
    × (length e.filesize ≡ 8)
    × Spells memory (ptr + namesize_at) e.namesize
    × Spells memory (ptr + filesize_at) e.filesize
    × Holds memory (ptr + header_size) e.name
    × (end_of_data 0 e < 2 ^ 31)
    × (end_of_data ptr e < word_mod)
    × (same_chars e.name trailer ≡ false)

-- The entries stand one behind the other, the trailer behind the last.
abbrev pub IsPacked : (ℕ → ℕ) → ℕ → List Entry → Type 0
IsPacked memory ptr [] =
    (has_prefix memory ptr magic ≡ true) × Holds memory (ptr + header_size) trailer
IsPacked memory ptr (e ∷ es) = IsEntry memory ptr e × IsPacked memory (end_of_data ptr e) es

-- The data and the size of the first entry of a name.
abbrev pub find_entry : ℕ → List Entry → List ℕ → Option (ℕ × ℕ)
find_entry ptr [] filename = none
find_entry ptr (e ∷ es) filename =
    if same_chars e.name filename
    then some (start_of_data ptr e, value_of 0 e.filesize)
    else find_entry (end_of_data ptr e) es filename

data_of-start_of_data :
    (ptr : ℕ) (e : Entry)
    → end_of_data 0 e < 2 ^ 31
    → end_of_data ptr e < word_mod
    → data_of ptr (value_of 0 e.namesize) ≡ start_of_data ptr e
data_of-start_of_data ptr e small fits =
    let n : ℕ = header_size + value_of 0 e.namesize in
    let same : n % int_mod ≡ n = omega arith in
    rw (same, align_up_int_lem n (omega arith)) (ground arith)

next_header-end_of_data :
    (ptr : ℕ) (e : Entry)
    → end_of_data 0 e < 2 ^ 31
    → end_of_data ptr e < word_mod
    → next_header ptr (value_of 0 e.namesize) (value_of 0 e.filesize) ≡ end_of_data ptr e
next_header-end_of_data ptr e small fits =
    let n : ℕ = header_size + value_of 0 e.namesize in
    let same : n % int_mod ≡ n = omega arith in
    rw
      (
        same,
        align_up_int_lem n (omega arith),
        align_up_int_lem (value_of 0 e.filesize) (omega arith),
      )
      (ground arith)

size_read :
    (memory : ℕ → ℕ) (s : ℕ) (ds : List ℕ)
    → Spells memory s ds
    → length ds ≡ 8
    → value_of 0 ds < int_mod
    → hextoi memory s 8 0 ≡ value_of 0 ds
size_read memory s ds spells eight l =
    ap (λ n. hextoi memory s n 0) (sym eight) ∙ hextoi-Spells memory s 0 ds spells l

trailer-IsChars : IsChars trailer
trailer-IsChars = ground arith

same_chars-trailer : same_chars trailer trailer ≡ true
unfolding same_chars
same_chars-trailer = refl

some-if :
    {A : Type 0} → (b : Bool) (x y : A) → (if b then some x else some y) ≡ some (if b then x else y)
some-if true x y = refl
some-if false x y = refl

-- On a well-formed archive of fewer entries than the fuel, and for a name without a NUL,
-- `initrd_get_file` gives where the data of the first entry of the name starts, and its size, or -1
-- where no entry has the name.
pub initrd_get_file_lem :
    (fuel : ℕ) (memory : ℕ → ℕ) (ptr : ℕ) (es : List Entry) (filename : List ℕ)
    → IsPacked memory ptr es
    → IsChars filename
    → length es < fuel
    → initrd_get_file fuel memory ptr filename ≡ some (find_entry ptr es filename)
unfolding initrd_get_file
initrd_get_file_lem zero memory ptr es filename packed chars l = ground arith
initrd_get_file_lem (suc fuel) memory ptr [] filename (first, held) chars l =
    let last : is_text memory (ptr + header_size) trailer ≡ true =
      is_text-Holds memory (ptr + header_size) trailer trailer held trailer-IsChars
      ∙ same_chars-trailer in
    rw (first, last) refl
initrd_get_file_lem (suc fuel) memory ptr (e ∷ es) filename
      ((first, namelen, filelen, namesize, filesize, named, small, fits, other), packed) chars l =
    let n = size_read memory (ptr + namesize_at) e.namesize namesize namelen (omega arith) in
    let f = size_read memory (ptr + filesize_at) e.filesize filesize filelen (omega arith) in
    let last = is_text-Holds memory (ptr + header_size) e.name trailer named trailer-IsChars in
    let here = is_text-Holds memory (ptr + header_size) e.name filename named chars in
    let start = data_of-start_of_data ptr e small fits in
    let end = next_header-end_of_data ptr e small fits in
    let rest =
      initrd_get_file_lem fuel memory (end_of_data ptr e) es filename packed chars (omega arith) in
    rw (first, n, f, last, other, here, start, end, rest)
      (some-if (same_chars e.name filename) (some (start_of_data ptr e, value_of 0 e.filesize))
        (find_entry (end_of_data ptr e) es filename))

-- The sizes and the addresses of the names of all entries.
abbrev pub listed : ℕ → List Entry → List (ℕ × ℕ)
listed ptr [] = []
listed ptr (e ∷ es) = (value_of 0 e.filesize, ptr + header_size) ∷ listed (end_of_data ptr e) es

-- On a well-formed archive of fewer entries than the fuel, `initrd_list` prints each of
-- them once, in order.
pub initrd_list_lem :
    (fuel : ℕ) (memory : ℕ → ℕ) (ptr : ℕ) (es : List Entry)
    → IsPacked memory ptr es
    → length es < fuel
    → initrd_list fuel memory ptr ≡ listed ptr es
unfolding initrd_list
initrd_list_lem zero memory ptr es packed l = ground arith
initrd_list_lem (suc fuel) memory ptr [] (first, held) l =
    let last : is_text memory (ptr + header_size) trailer ≡ true =
      is_text-Holds memory (ptr + header_size) trailer trailer held trailer-IsChars
      ∙ same_chars-trailer in
    rw (first, last) refl
initrd_list_lem (suc fuel) memory ptr (e ∷ es)
      ((first, namelen, filelen, namesize, filesize, named, small, fits, other), packed) l =
    let n = size_read memory (ptr + namesize_at) e.namesize namesize namelen (omega arith) in
    let f = size_read memory (ptr + filesize_at) e.filesize filesize filelen (omega arith) in
    let last = is_text-Holds memory (ptr + header_size) e.name trailer named trailer-IsChars in
    let end = next_header-end_of_data ptr e small fits in
    let rest = initrd_list_lem fuel memory (end_of_data ptr e) es packed (omega arith) in
    rw (first, n, f, last, other, end, rest) refl
