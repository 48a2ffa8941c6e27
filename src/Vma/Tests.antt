-- ===== src/Vma/Tests.antt =====
-- A process with its code at 0 and its stack below 256 GB, and a mapping of two pages.
use bare_metal_os.Base.{
  ℕ, suc, ◌+◌, ◌≤◌, ◌<◌, ◌≡◌, refl, ◌↔◌, ◌⊎◌, false, Option, none, some, List, [], ◌∷◌, arith, ltb,
  if◌then◌else◌,
}
use bare_metal_os.Base.Words.{word_mod, add64}
use bare_metal_os.Align.{align_up_ul}
use bare_metal_os.Vma.{
  is_vma_overlap, new_area, add_vma, remove_vma, end_in_way, search_region, region_base,
  find_free_vma_region, page_round, VmArea,
}
use bare_metal_os.Vma.Layout.{IsLaidOut, Holds}
use bare_metal_os.Vma.Mmap.{populate, add_mapping, sys_mmap, Space}
use bare_metal_os.Vma.Disjoint.{sys_mmap-IsLaidOut, remove_vma-add_vma}
use bare_metal_os.Vma.Region.{find_free_vma_region_lem}

abbrev process : List VmArea
process =
    new_area 0 0x3000 7 0x20
    ∷ new_area 0x10000000 0x1000 3 0x20
    ∷ new_area 0x3fffffe000 0x2000 3 0x20
    ∷ []

-- A parameter of the model: the pages are counted, and the fifth is refused.
abbrev count_page : ℕ → ℕ → ℕ → Option ℕ
count_page a prot w = if ltb w 4 then some (suc w) else none

abbrev space : Space ℕ
space = record { vmas = process; kernel = 0 }

behind_the_first : find_free_vma_region process 0x2000 ≡ some 0x10001000
unfolding find_free_vma_region search_region end_in_way
behind_the_first = refl

populated : (add_mapping count_page 0x10001000 0x2000 3 0x8020 space).1.kernel ≡ 2
unfolding add_mapping populate
populated = refl

sys_mmap-IsLaidOut_example :
    (result : Option ℕ) × (s' : Space ℕ) × (a : ℕ) × (sys_mmap count_page 0x10000000 0x1800 3 0x8020
        space
      ≡ some (result, s'))
    × IsLaidOut 0 word_mod s'.vmas
    × ((x : ℕ) → Holds s'.vmas x ↔ (((a ≤ x) × (x < a + page_round 0x1800)) ⊎ Holds process x))
    × (a ≤ 0x4000000000)
unfolding align_up_ul
sys_mmap-IsLaidOut_example =
    sys_mmap-IsLaidOut count_page 0x4000000000 0x10000000 0x1800 3 0x8020 space (omega arith)
      (omega arith) (omega arith) (omega arith) (omega arith)

find_free_vma_region_lem_example :
    (a : ℕ) × (find_free_vma_region process 0x2000 ≡ some a)
    × (is_vma_overlap process a (add64 a 0x2000) ≡ false)
    × (region_base ≤ a)
find_free_vma_region_lem_example = find_free_vma_region_lem process 0x2000

remove_vma-add_vma_example :
    remove_vma (add_vma process 0x10001000 0x1000 3 0x20) 0x10001000 ≡ process
unfolding is_vma_overlap
remove_vma-add_vma_example =
    remove_vma-add_vma 0 0x4000000000 process 0x10001000 0x1000 3 0x20 (omega arith) (omega arith)
      (omega arith) refl
