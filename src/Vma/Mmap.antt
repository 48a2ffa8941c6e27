-- ===== src/Vma/Mmap.antt =====
-- src/syscall.c: `sys_mmap` from the rounding of the length to the pages that MAP_POPULATE maps.
use bare_metal_os.Base.{
  ℕ, zero, suc, ◌/◌, bit_and, bit_or, Bool, true, false, not, Option, none, some, List, ◌==◌,
  if◌then◌else◌, length,
}
use bare_metal_os.Base.Words.{add64}
use bare_metal_os.Config.{page_size}
use bare_metal_os.Vma.{add_vma, page_round, place_mapping, VmArea}

-- PROT_READ, PROT_WRITE, PROT_EXEC
abbrev pub reads : ℕ → Bool
reads prot = not (bit_and prot 1 == 0)

abbrev pub writes : ℕ → Bool
writes prot = not (bit_and prot 2 == 0)

abbrev pub executes : ℕ → Bool
executes prot = not (bit_and prot 4 == 0)

-- The flags of a user page: PTE_V | PTE_U | PTE_A | PTE_D and those that the protection asks for.
unfoldable pub pte_prot : ℕ → ℕ
pte_prot prot =
    let base : ℕ = 0xd1 in
    let readable : ℕ = if reads prot then bit_or base 2 else base in
    let writable : ℕ = if writes prot then bit_or readable 6 else readable in
    if executes prot then bit_or writable 8 else writable

-- MAP_POPULATE
abbrev pub populates : ℕ → Bool
populates flags = not (bit_and flags 0x8000 == 0)

-- The areas of the process and the rest of the kernel.
pub record Space (W : Type 0) : Type 0 where
  pub vmas : List VmArea
  pub kernel : W

-- `map_page` allocates a page, clears it and maps it at an address; `none` if there is no page.
module _ {W : Type 0} (map_page : ℕ → ℕ → W → Option W) where
  -- for (a = start; a < start + length; a += PAGE_SIZE), over the pages that are left.
  unfoldable pub populate : ℕ → ℕ → ℕ → W → W × Bool
  populate zero a prot w = (w, true)
  populate (suc pages) a prot w = elim (map_page a prot w) [
    | none ↦ (w, false)
    | some w' ↦ populate pages (add64 a page_size) prot w'
  ]

  -- `sys_mmap` from its third step on: the area is added, and MAP_POPULATE maps its pages.
  unfoldable pub add_mapping : ℕ → ℕ → ℕ → ℕ → Space W → Option ℕ × Space W
  add_mapping start size prot flags s =
      let mapped : Space W = record s { vmas = add_vma s.vmas start size prot flags } in
      let (w, done) = populate (size / page_size) start (pte_prot prot) s.kernel in
      if populates flags
      then (if done then some start else none, record mapped { kernel = w })
      else (some start, mapped)

  -- `sys_mmap`: the address, or `none` for -1. The outer `none` is a search without an end.
  unfoldable pub sys_mmap : ℕ → ℕ → ℕ → ℕ → Space W → Option (Option ℕ × Space W)
  sys_mmap addr length prot flags s =
      let size = page_round length in
      if size == 0 then some (none, s) else (elim (place_mapping s.vmas addr size) [
        | none ↦ none
        | some start ↦ some (add_mapping start size prot flags s)
      ])
