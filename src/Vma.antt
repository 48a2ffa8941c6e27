-- ===== src/Vma.antt =====
-- src/syscall.c: the memory areas of a process, sorted by their start, and `sys_mmap`.
mod Tests
pub mod Layout
pub mod Region
pub mod Mmap
pub mod Disjoint
use bare_metal_os.Base.{
  ℕ, zero, suc, ◌+◌, ◌-◌, bit_and, Bool, true, false, not, ◌||◌, Option, none, some, List, [], ◌∷◌,
  ltb, leb, ◌==◌, if◌then◌else◌, length,
}
use bare_metal_os.Base.Words.{add64}
use bare_metal_os.Config.{page_size}
use bare_metal_os.Align.{align_up_ul}

-- `struct vm_area` less its link; a pointer `file_data` of 0 is NULL.
pub record VmArea : Type 0 where
  pub start : ℕ
  pub end : ℕ
  pub prot : ℕ
  pub flags : ℕ
  pub file_data : ℕ
  pub file_size : ℕ

-- !(end <= curr->start || start >= curr->end)
abbrev pub meets : ℕ → ℕ → VmArea → Bool
meets start end v = not (leb end v.start || leb v.end start)

-- `is_vma_overlap`
unfoldable pub is_vma_overlap : List VmArea → ℕ → ℕ → Bool
is_vma_overlap [] start end = false
is_vma_overlap (v ∷ vmas) start end =
    let rest = is_vma_overlap vmas start end in if meets start end v then true else rest

-- The node that `add_vma` fills in.
abbrev pub new_area : ℕ → ℕ → ℕ → ℕ → VmArea
new_area start length prot flags = record {
  start = start;
  end = add64 start length;
  prot = prot;
  flags = flags;
  file_data = 0;
  file_size = 0;
}

-- while (curr->next && curr->next->start < start), from `curr->next` on.
unfoldable pub insert_area : VmArea → List VmArea → List VmArea
insert_area new [] = new ∷ []
insert_area new (v ∷ vmas) =
    let rest = insert_area new vmas in if ltb v.start new.start then v ∷ rest else new ∷ v ∷ vmas

-- `add_vma` where `allocate` gives a node: the new list.
unfoldable pub add_vma : List VmArea → ℕ → ℕ → ℕ → ℕ → List VmArea
add_vma [] start length prot flags = new_area start length prot flags ∷ []
add_vma (v ∷ vmas) start length prot flags =
    let new = new_area start length prot flags in
    if ltb start v.start then new ∷ v ∷ vmas else v ∷ insert_area new vmas

-- `remove_vma`
unfoldable pub remove_vma : List VmArea → ℕ → List VmArea
remove_vma [] start = []
remove_vma (v ∷ vmas) start =
    let rest = remove_vma vmas start in if v.start == start then vmas else v ∷ rest

-- `copy_vma_list` where `allocate` gives every node.
unfoldable pub copy_vma_list : List VmArea → List VmArea
copy_vma_list [] = []
copy_vma_list (v ∷ vmas) =
    record {
      start = v.start;
      end = v.end;
      prot = v.prot;
      flags = v.flags;
      file_data = v.file_data;
      file_size = v.file_size;
    }
    ∷ copy_vma_list vmas

-- The inner loop of `find_free_vma_region`: the end of the first area in the way.
unfoldable pub end_in_way : List VmArea → ℕ → ℕ → Option ℕ
end_in_way [] addr length = none
end_in_way (v ∷ vmas) addr length =
    let rest = end_in_way vmas addr length in
    if meets addr (add64 addr length) v then some v.end else rest

-- Its outer loop, on fuel.
unfoldable pub search_region : ℕ → List VmArea → ℕ → ℕ → Option ℕ
search_region zero vmas addr length = none
search_region (suc fuel) vmas addr length = elim (end_in_way vmas addr length) [
  | none ↦ some addr
  | some end ↦ search_region fuel vmas end length
]

-- The search starts at 256 MB.
abbrev pub region_base : ℕ
region_base = 0x10000000

-- `find_free_vma_region`: each turn leaves another area behind.
unfoldable pub find_free_vma_region : List VmArea → ℕ → Option ℕ
find_free_vma_region vmas size = search_region (length vmas + 1) vmas region_base size

-- The length of a mapping, rounded up to whole pages.
abbrev pub page_round : ℕ → ℕ
page_round length = align_up_ul length page_size

-- start == 0 || (start & (PAGE_SIZE - 1)) != 0 || is_vma_overlap(current, start, start + length)
unfoldable pub is_refused : List VmArea → ℕ → ℕ → Bool
is_refused vmas start length =
    (start == 0)
    || not (bit_and start (page_size - 1) == 0)
    || is_vma_overlap vmas start (add64 start length)

-- The address that `sys_mmap` settles on.
unfoldable pub place_mapping : List VmArea → ℕ → ℕ → Option ℕ
place_mapping vmas start length =
    let found = find_free_vma_region vmas length in
    if is_refused vmas start length then found else some start
