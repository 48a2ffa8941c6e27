-- ===== src/Cpio/Tests.antt =====
-- lib/cpio.c: an archive of one file.
use bare_metal_os.Base.{ℕ, zero, suc, ◌≡◌, refl, true, false, some, List, [], ◌∷◌, arith}
use bare_metal_os.Cpio.{magic, trailer, has_prefix, initrd_get_file}
use bare_metal_os.Vfs.Paths.{same_chars}
use bare_metal_os.Cpio.Find.{IsEntry, IsPacked, find_entry, initrd_get_file_lem, Entry}

abbrev zeros : ℕ → List ℕ → List ℕ
zeros zero rest = rest
zeros (suc n) rest = 48 ∷ zeros n rest

-- A header with the last digits of its sizes.
abbrev header : ℕ → ℕ → List ℕ → List ℕ
header filesize namesize rest =
    48 ∷ 55 ∷ 48 ∷ 55 ∷ 48 ∷ 49 ∷ zeros 55 (filesize ∷ zeros 39 (namesize ∷ zeros 8 rest))

-- "a" with the data "hey", and the trailer.
abbrev one_file : List ℕ
one_file = header 51 50 (
    97
    ∷ 0
    ∷ 104
    ∷ 101
    ∷ 121
    ∷ 0
    ∷ header 48 66 (84 ∷ 82 ∷ 65 ∷ 73 ∷ 76 ∷ 69 ∷ 82 ∷ 33 ∷ 33 ∷ 33 ∷ []))

abbrev byte_at : List ℕ → ℕ → ℕ
byte_at [] n = 0
byte_at (b ∷ bs) zero = b
byte_at (b ∷ bs) (suc n) = byte_at bs n

abbrev entry : Entry
entry = record {
  name = 97 ∷ [];
  namesize = 0 ∷ 0 ∷ 0 ∷ 0 ∷ 0 ∷ 0 ∷ 0 ∷ 2 ∷ [];
  filesize = 0 ∷ 0 ∷ 0 ∷ 0 ∷ 0 ∷ 0 ∷ 0 ∷ 3 ∷ [];
}

first_header : has_prefix (byte_at one_file) 0 magic ≡ true
unfolding has_prefix
first_header = refl

last_header : has_prefix (byte_at one_file) 116 magic ≡ true
unfolding has_prefix
last_header = refl

other_name : same_chars entry.name trailer ≡ false
unfolding same_chars
other_name = refl

entry-IsEntry : IsEntry (byte_at one_file) 0 entry
entry-IsEntry = (
  first_header,
  refl,
  refl,
  ground arith,
  ground arith,
  ground arith,
  omega arith,
  omega arith,
  other_name,
)

one_file-IsPacked : IsPacked (byte_at one_file) 0 (entry ∷ [])
one_file-IsPacked = (entry-IsEntry, (last_header, ground arith))

initrd_get_file_lem_example :
    initrd_get_file 2 (byte_at one_file) 0 (97 ∷ []) ≡ some (find_entry 0 (entry ∷ []) (97 ∷ []))
initrd_get_file_lem_example =
    initrd_get_file_lem 2 (byte_at one_file) 0 (entry ∷ []) (97 ∷ []) one_file-IsPacked
      (ground arith) (omega arith)
