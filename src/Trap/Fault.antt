-- ===== src/Trap/Fault.antt =====
-- src/exception.c: a page fault, which copies a shared page or brings in a page of an area.
use bare_metal_os.Base.{
  ℕ, ◌+◌, ◌-◌, bit_and, bit_or, Bool, true, false, not, ◌&&◌, ◌||◌, Option, none, some, List, [],
  ◌∷◌, ltb, leb, ◌==◌, if◌then◌else◌, update,
}
use bare_metal_os.Base.Words.{sub64}
use bare_metal_os.Align.{align_down_ul}
use bare_metal_os.Config.{page_size, page_offset}
use bare_metal_os.Vma.{VmArea}
use bare_metal_os.Vma.Mmap.{reads, writes, executes, pte_prot}
use bare_metal_os.Mmu.{
  is_valid, is_writable, make_pte, page_of, set_entry, take_page, free_page, clear_page, pagewalk,
  map_pages_at, Tables,
}
use bare_metal_os.Kernel.{Thread, Kernel}
use bare_metal_os.Threads.{thread_exit}

-- while (vma): the first area that holds an address.
unfoldable pub area_of : ℕ → List VmArea → Option VmArea
area_of addr [] = none
area_of addr (v ∷ vmas) =
    let rest = area_of addr vmas in if leb v.start addr && ltb addr v.end then some v else rest

-- (new page) | (*pte & 0x3FF) | PTE_W
abbrev pub writable_copy : ℕ → ℕ → ℕ
writable_copy page pte = bit_or (make_pte (sub64 page page_offset) (bit_and pte 0x3ff)) 4

-- The copy of a page that has other owners: a new page with its bytes, for this entry alone.
unfoldable pub copy_page : ℕ → ℕ → Tables → Tables
copy_page t i s =
    let pte : ℕ = s.entry t i in
    let old_page : ℕ = page_of pte in
    let (new_page, s1) = take_page s in
    let copied : Tables = record s1 { bytes = update s1.bytes new_page (s1.bytes old_page) } in
    if new_page == 0
    then s1
    else free_page old_page (set_entry t i (writable_copy new_page pte) copied)

-- A store to a page that is read-only in a writable area.
unfoldable pub resolve_cow : ℕ → ℕ → Tables → Tables
resolve_cow t i s =
    if ltb 1 (s.owners (page_of (s.entry t i)))
    then copy_page t i s
    else set_entry t i (bit_or (s.entry t i) 4) s

-- The entry of a store fault that is one for `resolve_cow`.
unfoldable pub cow_entry : ℕ → ℕ → VmArea → ℕ → Tables → Option (ℕ × ℕ)
cow_entry cause addr v pgd s =
    if (cause == 15) && writes v.prot
    then (elim (pagewalk pgd addr false s).0 [
      | none ↦ none
      | some (t, i) ↦
          if is_valid (s.entry t i) && not (is_writable (s.entry t i)) then some (t, i) else none
    ])
    else none

-- Instruction, load and store faults need the area's permission.
abbrev pub is_permitted : ℕ → ℕ → Bool
is_permitted cause prot =
    not ((cause == 12) && not (executes prot))
    && (not ((cause == 13) && not (reads prot)) && not ((cause == 15) && not (writes prot)))

-- memcpy of the part of a file that backs a page at an offset of its area.
unfoldable pub fill_from_file : VmArea → ℕ → ℕ → (ℕ → ℕ) → Tables → Tables
fill_from_file v offset page memory s =
    let rest : ℕ = v.file_size - offset in
    let size : ℕ = if ltb page_size rest then page_size else rest in
    if (v.file_data == 0) || leb v.file_size offset then s else record s {
      bytes =
          update s.bytes page
            (λ j. if ltb j size then memory (v.file_data + offset + j) else s.bytes page j);
    }

-- A page brought in for an address of an area; false if there is none.
unfoldable pub bring_in : (ℕ → ℕ) → ℕ → VmArea → ℕ → Tables → Bool × Tables
bring_in memory addr v pgd s =
    let (page, s1) = take_page s in
    let base : ℕ = align_down_ul addr page_size in
    let filled : Tables = fill_from_file v (sub64 base v.start) page memory (clear_page page s1) in
    if page == 0
    then (false, s1)
    else (true, map_pages_at pgd base (sub64 page page_offset) page_size (pte_prot v.prot) filled)

-- The loop over the areas: whether the fault is handled, and the tables.
unfoldable pub handle_fault : (ℕ → ℕ) → ℕ → ℕ → Thread → Tables → Bool × Tables
handle_fault memory cause addr c s = elim (area_of addr c.vmas) [
  | none ↦ (false, s)
  | some v ↦ elim (cow_entry cause addr v c.pgd s) [
    | some (t, i) ↦ (true, resolve_cow t i s)
    | none ↦ if is_permitted cause v.prot then bring_in memory addr v c.pgd s else (false, s)
  ]
]

-- Causes 12, 13 and 15 of `do_trap`: a fault that is not handled ends the thread.
module _ (memory : ℕ → ℕ) where
  unfoldable pub page_fault : ℕ → ℕ → Kernel → Kernel
  page_fault cause addr k =
      let (handled, tables) = handle_fault memory cause addr (k.threads k.current) k.tables in
      let k' : Kernel = record k { tables = tables } in if handled then k' else thread_exit k'
