-- ===== src/Mmu/Copy.antt =====
-- src/mmu.c: `free_pgd`, and `copy_pgd`, which shares the pages of a process copy on write.
use bare_metal_os.Base.{ℕ, ◌+◌, bit_and, Bool, true, false, not, ◌==◌, if◌then◌else◌, update}
use bare_metal_os.Base.Words.{sub64}
use bare_metal_os.Align.{not64}
use bare_metal_os.Config.{page_offset}
use bare_metal_os.Mmu.{
  is_valid, make_pte, page_of, set_entry, take_page, free_page, clear_page, for_range, try_range,
  Tables,
}

-- The page of each valid entry of a page table is freed, then the table itself.
unfoldable pub free_pt : ℕ → Tables → Tables
free_pt pt s = free_page pt (
    for_range 512 0
      (λ k s. if is_valid (s.entry pt k) then free_page (page_of (s.entry pt k)) s else s) s)

unfoldable pub free_pmd : ℕ → Tables → Tables
free_pmd pmd s = free_page pmd (
    for_range 512 0
      (λ j s. if is_valid (s.entry pmd j) then free_pt (page_of (s.entry pmd j)) s else s) s)

-- `free_pgd`: the lower half of the directory belongs to the process.
unfoldable pub free_pgd : ℕ → Tables → Tables
free_pgd pgd s = free_page pgd (
    for_range 256 0
      (λ i s. if is_valid (s.entry pgd i) then free_pmd (page_of (s.entry pgd i)) s else s) s)

-- `&= ~PTE_W`
abbrev pub read_only : ℕ → ℕ
read_only pte = bit_and pte (not64 4)

-- The innermost loop of `copy_pgd`: a page loses its W bit for both, and gains an owner. The page
-- is one of the pool, which page_inc_ref tests.
unfoldable pub share_page : ℕ → ℕ → ℕ → Tables → Tables
share_page parent_pt child_pt k s =
    let pte : ℕ = s.entry parent_pt k in
    let pa : ℕ = page_of pte in
    let shared : Tables =
      set_entry child_pt k (read_only pte) (set_entry parent_pt k (read_only pte) s) in
    if is_valid pte then record shared { owners = update s.owners pa (s.owners pa + 1) } else s

-- A table for the child, linked from an entry; false if there is no page.
unfoldable pub new_table : ℕ → ℕ → Tables → ℕ × Tables
new_table t i s =
    let (p, s1) = take_page s in
    if p == 0
    then (0, s1)
    else (p, set_entry t i (make_pte (sub64 p page_offset) 1) (clear_page p s1))

-- The two inner loops of `copy_pgd`, for an entry of a middle table.
unfoldable pub copy_pt : ℕ → ℕ → ℕ → Tables → Bool × Tables
copy_pt parent_pmd child_pmd j s =
    let pte : ℕ = s.entry parent_pmd j in
    let (child_pt, s1) = new_table child_pmd j s in
    if not (is_valid pte)
    then (true, s)
    else if child_pt == 0
    then (false, s1)
    else (true, for_range 512 0 (λ k s. share_page (page_of pte) child_pt k s) s1)

-- The body of the loop of `copy_pgd` over the lower half.
unfoldable pub copy_pmd : ℕ → ℕ → ℕ → Tables → Bool × Tables
copy_pmd pgd new_pgd i s =
    let pte : ℕ = s.entry pgd i in
    let (child_pmd, s1) = new_table new_pgd i s in
    if not (is_valid pte)
    then (true, s)
    else if child_pmd == 0
    then (false, s1)
    else try_range 512 0 (λ j s. copy_pt (page_of pte) child_pmd j s) s1

-- `copy_pgd`: 0 is NULL, and what was built so far is freed.
unfoldable pub copy_pgd : ℕ → Tables → ℕ × Tables
copy_pgd pgd s =
    let (new_pgd, s1) = take_page s in
    let kernel : Tables =
      for_range 256 256 (λ i s. set_entry new_pgd i (s.entry pgd i) s) (clear_page new_pgd s1) in
    let (done, s2) = try_range 256 0 (λ i s. copy_pmd pgd new_pgd i s) kernel in
    if new_pgd == 0 then (0, s1) else if done then (new_pgd, s2) else (0, free_pgd new_pgd s2)
