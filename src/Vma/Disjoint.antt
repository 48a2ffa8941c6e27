-- ===== src/Vma/Disjoint.antt =====
-- src/syscall.c: `sys_mmap` keeps the areas of a process apart.
use bare_metal_os.Base.{
  ℕ, zero, suc, ◌+◌, ◌≤◌, ◌<◌, ◌≡◌, refl, sym, ◌∙◌, ◌↔◌, ◌⊎◌, inl, inr, false, Option, some, List,
  [], ◌∷◌, arith, ◌==◌, Bool-cases, Option-cases, length,
}
use bare_metal_os.Base.Words.{word_mod, add64}
use bare_metal_os.Vma.{
  is_vma_overlap, new_area, insert_area, add_vma, remove_vma, end_in_way, search_region,
  region_base, find_free_vma_region, page_round, is_refused, place_mapping, VmArea,
}
use bare_metal_os.Vma.Layout.{
  IsLaidOut, Holds, IsLaidOut-bounds, IsLaidOut-weaken, insert_area-IsLaidOut, insert_area-Holds,
  add_vma-insert_area,
}
use bare_metal_os.Vma.Region.{find_free_vma_region_lem}
use bare_metal_os.Vma.Mmap.{populates, add_mapping, sys_mmap, Space}

end_in_way-le :
    (low top : ℕ) (vmas : List VmArea) (addr size end : ℕ)
    → IsLaidOut low top vmas
    → end_in_way vmas addr size ≡ some end
    → end ≤ top
unfolding end_in_way
end_in_way-le low top [] addr size end l e = cc
end_in_way-le low top (v ∷ vmas) addr size end l e =
    ground (arith, end_in_way-le v.end top vmas addr size end, IsLaidOut-bounds v.end top vmas)

search_region-le :
    (fuel top : ℕ) (vmas : List VmArea) (addr size a : ℕ)
    → IsLaidOut 0 top vmas
    → addr ≤ top
    → search_region fuel vmas addr size ≡ some a
    → a ≤ top
unfolding search_region
search_region-le zero top vmas addr size a l h e = cc
search_region-le (suc fuel) top vmas addr size a l h e =
    elim (Option-cases (end_in_way vmas addr size)) [
      | inl p ↦
          let now : search_region (suc fuel) vmas addr size ≡ some addr =
            rw (p, search_region) refl in
          ground arith
      | inr (end, p) ↦
          let next : search_region (suc fuel) vmas addr size ≡ search_region fuel vmas end size =
            rw (p, search_region) refl in
          search_region-le fuel top vmas end size a l (end_in_way-le 0 top vmas addr size end l p)
            (sym next ∙ e)
    ]

find_free_vma_region-le :
    (top : ℕ) (vmas : List VmArea) (size a : ℕ)
    → IsLaidOut 0 top vmas
    → region_base ≤ top
    → find_free_vma_region vmas size ≡ some a
    → a ≤ top
unfolding find_free_vma_region
find_free_vma_region-le top vmas size a l b e =
    search_region-le (length vmas + 1) top vmas region_base size a l b e

is_refused-false :
    (vmas : List VmArea) (addr size : ℕ)
    → is_refused vmas addr size ≡ false
    → is_vma_overlap vmas addr (add64 addr size) ≡ false
unfolding is_refused
is_refused-false vmas addr size e = ground arith

-- What is settled on is free, and lies below the bounds of the areas and of the hint.
place_mapping_lem :
    (top : ℕ) (vmas : List VmArea) (addr size : ℕ)
    → IsLaidOut 0 top vmas
    → region_base ≤ top
    → addr ≤ top
    → (a : ℕ) × (place_mapping vmas addr size ≡ some a)
      × (is_vma_overlap vmas a (add64 a size) ≡ false)
      × (a ≤ top)
unfolding place_mapping
place_mapping_lem top vmas addr size l b h = elim (Bool-cases (is_refused vmas addr size)) [
  | inl e ↦
      let (a, found, free, le) = find_free_vma_region_lem vmas size in
      (a, rw (e, place_mapping) found, free, find_free_vma_region-le top vmas size a l b found)
  | inr e ↦ (addr, rw (e, place_mapping) refl, is_refused-false vmas addr size e, h)
]

module _ {W : Type 0} (map_page : ℕ → ℕ → W → Option W) where
  add_mapping-vmas :
      (a size prot flags : ℕ) (s : Space W)
      → (add_mapping map_page a size prot flags s).1.vmas ≡ add_vma s.vmas a size prot flags
  unfolding add_mapping
  add_mapping-vmas a size prot flags s = elim (Bool-cases (populates flags)) [
    | inl e ↦ rw (e, add_mapping) refl
    | inr e ↦ rw (e, add_mapping) refl
  ]

  sys_mmap-add_mapping :
      (addr size a prot flags : ℕ) (s : Space W)
      → 0 < page_round size
      → place_mapping s.vmas addr (page_round size) ≡ some a
      → sys_mmap map_page addr size prot flags s
        ≡ some (add_mapping map_page a (page_round size) prot flags s)
  unfolding sys_mmap
  sys_mmap-add_mapping addr size a prot flags s p e =
      let full : (page_round size == 0) ≡ false = ground arith in rw (full, e, sys_mmap) refl

insert_area-Holds_end :
    (a n prot flags : ℕ) (vmas : List VmArea) (x : ℕ)
    → add64 a n ≡ a + n
    → Holds (insert_area (new_area a n prot flags) vmas) x
      ↔ (((a ≤ x) × (x < a + n)) ⊎ Holds vmas x)
insert_area-Holds_end a n prot flags vmas x e =
    ground (arith, insert_area-Holds (new_area a n prot flags) vmas x)

-- Where the areas lie apart below some address and the length is not rounded to 0 and does not
-- reach the end of the address space, `sys_mmap` ends: the areas lie apart again, whether or not
-- the pages are mapped, and an address is in an area if and only if it was or is in the new region
-- of the rounded length, which starts below the bound on the areas and the hint.
pub sys_mmap-IsLaidOut :
    {W : Type 0} (map_page : ℕ → ℕ → W → Option W) (top addr size prot flags : ℕ) (s : Space W)
    → IsLaidOut 0 top s.vmas
    → region_base ≤ top
    → addr ≤ top
    → 0 < page_round size
    → top + page_round size < word_mod
    → (result : Option ℕ) × (s' : Space W) × (a : ℕ) × (sys_mmap map_page addr size prot flags s
        ≡ some (result, s'))
      × IsLaidOut 0 word_mod s'.vmas
      × ((x : ℕ) → Holds s'.vmas x ↔ (((a ≤ x) × (x < a + page_round size)) ⊎ Holds s.vmas x))
      × (a ≤ top)
sys_mmap-IsLaidOut map_page top addr size prot flags s l b h p q =
    let n : ℕ = page_round size in
    let (a, found, free, le) = place_mapping_lem top s.vmas addr n l b h in
    let end : add64 a n ≡ a + n = omega arith in
    let wide = IsLaidOut-weaken 0 top 0 word_mod s.vmas (omega arith) (omega arith) l in
    let put = add_vma-insert_area 0 top s.vmas a n prot flags l p (omega arith) free in
    let vmas = add_mapping-vmas map_page a n prot flags s ∙ put in
    (
      (add_mapping map_page a n prot flags s).0,
      (add_mapping map_page a n prot flags s).1,
      a,
      sys_mmap-add_mapping map_page addr size a prot flags s p found,
      rw vmas (
          insert_area-IsLaidOut 0 word_mod (new_area a n prot flags) s.vmas wide (omega arith)
            (omega arith) (omega arith) free),
      λ x. rw vmas (insert_area-Holds_end a n prot flags s.vmas x end),
      le,
    )

remove_vma-insert_area :
    (low top : ℕ) (new : VmArea) (vmas : List VmArea)
    → IsLaidOut low top vmas
    → new.start < new.end
    → is_vma_overlap vmas new.start new.end ≡ false
    → remove_vma (insert_area new vmas) new.start ≡ vmas
unfolding remove_vma insert_area is_vma_overlap
remove_vma-insert_area low top new [] l p e = ground arith
remove_vma-insert_area low top new (v ∷ vmas) l p e =
    ground (arith, remove_vma-insert_area v.end top new vmas)

-- Removing a region that was added where no area overlapped it, which `sys_sigreturn` does with the
-- stack of a signal handler, gives back the areas as they were, if they lie apart and the region is
-- neither empty nor wraps round.
pub remove_vma-add_vma :
    (low top : ℕ) (vmas : List VmArea) (start size prot flags : ℕ)
    → IsLaidOut low top vmas
    → 0 < size
    → start + size < word_mod
    → is_vma_overlap vmas start (add64 start size) ≡ false
    → remove_vma (add_vma vmas start size prot flags) start ≡ vmas
remove_vma-add_vma low top vmas start size prot flags l p b e =
    rw (add_vma-insert_area low top vmas start size prot flags l p b e)
      (remove_vma-insert_area low top (new_area start size prot flags) vmas l (omega arith) e)
