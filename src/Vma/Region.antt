-- ===== src/Vma/Region.antt =====
-- src/syscall.c: the search for a free region ends, and what it finds is free.
use bare_metal_os.Base.{
  ℕ, zero, suc, ◌+◌, ◌≤◌, ◌<◌, ◌≡◌, refl, inl, inr, false, none, some, List, [], ◌∷◌, arith, ltb,
  if◌then◌else◌, Option-cases, length,
}
use bare_metal_os.Base.Words.{add64}
use bare_metal_os.Vma.{
  is_vma_overlap, end_in_way, search_region, region_base, find_free_vma_region, VmArea,
}

-- How many areas end beyond an address.
abbrev beyond : ℕ → List VmArea → ℕ
beyond addr [] = 0
beyond addr (v ∷ vmas) = if ltb addr v.end then suc (beyond addr vmas) else beyond addr vmas

beyond-le : (a b : ℕ) (vmas : List VmArea) → a ≤ b → beyond b vmas ≤ beyond a vmas
beyond-le a b [] h = omega arith
beyond-le a b (v ∷ vmas) h = ground (arith, beyond-le a b vmas h)

beyond-length : (a : ℕ) (vmas : List VmArea) → beyond a vmas ≤ length vmas
beyond-length a [] = omega arith
beyond-length a (v ∷ vmas) = ground (arith, beyond-length a vmas)

-- An area in the way ends beyond the address, and is behind when the search goes on at its end.
end_in_way-beyond :
    (vmas : List VmArea) (addr size end : ℕ)
    → end_in_way vmas addr size ≡ some end
    → (addr < end) × (beyond end vmas < beyond addr vmas)
unfolding end_in_way
end_in_way-beyond [] addr size end e = cc
end_in_way-beyond (v ∷ vmas) addr size end e = ground (
  arith,
  end_in_way-beyond vmas addr size end,
  beyond-le addr v.end vmas,
  beyond-le addr end vmas,
)

pub end_in_way-none :
    (vmas : List VmArea) (addr size : ℕ)
    → end_in_way vmas addr size ≡ none
    → is_vma_overlap vmas addr (add64 addr size) ≡ false
unfolding end_in_way is_vma_overlap
end_in_way-none [] addr size e = refl
end_in_way-none (v ∷ vmas) addr size e = ground (arith, end_in_way-none vmas addr size)

search_region_lem :
    (fuel : ℕ) (vmas : List VmArea) (addr size : ℕ)
    → beyond addr vmas < fuel
    → (a : ℕ) × (search_region fuel vmas addr size ≡ some a)
      × (is_vma_overlap vmas a (add64 a size) ≡ false)
      × (addr ≤ a)
unfolding search_region
search_region_lem zero vmas addr size h = absurd (omega arith)
search_region_lem (suc fuel) vmas addr size h = elim (Option-cases (end_in_way vmas addr size)) [
  | inl e ↦ (addr, rw (e, search_region) refl, end_in_way-none vmas addr size e, omega arith)
  | inr (end, e) ↦
      let (above, fewer) = end_in_way-beyond vmas addr size end e in
      let (a, found, free, le) = search_region_lem fuel vmas end size (omega arith) in
      (a, rw (e, search_region) found, free, omega arith)
]

-- The search for a region ends for every list of areas and every length, even where the end of the
-- region wraps round: the address it returns is at least 256 MB, and the code's own test finds no
-- area that overlaps the region.
pub find_free_vma_region_lem :
    (vmas : List VmArea) (size : ℕ)
    → (a : ℕ) × (find_free_vma_region vmas size ≡ some a)
      × (is_vma_overlap vmas a (add64 a size) ≡ false)
      × (region_base ≤ a)
unfolding find_free_vma_region
find_free_vma_region_lem vmas size =
    search_region_lem (length vmas + 1) vmas region_base size
      (omega (arith, beyond-length region_base vmas))
