-- ===== src/Buddy/Tests.antt =====
-- The buddy system at a pool of four pages, one free block of order 2.
use bare_metal_os.Base.{
  ℕ, ◌+◌, ◌≤◌, ◌<◌, ◌≡◌, refl, ◌⊎◌, inl, inr, true, some, [], ◌∷◌, arith, ◌==◌, if◌then◌else◌,
}
use bare_metal_os.Base.Words.{minus_one}
use bare_metal_os.Config.{max_order}
use bare_metal_os.Buddy.{
  page_to_addr, mark_tails, mark_block, add_free_block, remove_free_block, find_block, split_block,
  hand_out, alloc_pages, join, merge, freed_page, release, free_pages, PageState, Frame, Buddy,
  free_head, free_tail, alloc_page_head,
}
use bare_metal_os.Buddy.InHand.{IsConsistent, position, Good-tail, IsPool}
use bare_metal_os.Buddy.Alloc.{alloc_pages-IsConsistent, alloc_pages_lem, Allocated}
use bare_metal_os.Buddy.Free.{free_pages-IsConsistent, Released}
use bare_metal_os.Buddy.Heads.{free_pages_lem, HeadAt}
use bare_metal_os.Buddy.RoundTrip.{alloc-free, SameFree}
use bare_metal_os.Buddy.Build.{init}
use bare_metal_os.Buddy.Build.Total.{init_lem, Ready}
use bare_metal_os.Buddy.Region.{set_region, set_region_overrun}

abbrev pub frame : ℕ → PageState → Frame
frame o st = record { order = o; state = st; meta_pool_idx = 255; ref_count = 0; cow_ref_count = 0 }

abbrev pub quad : Buddy
quad = record {
  frames = λ p. if p == 0 then frame 2 free_head else frame minus_one free_tail;
  free_area = λ k. if k == 2 then 0 ∷ [] else [];
  mempool_start = 0x81000000;
  mempool_size = 0x4000;
  total_page = 4;
  ready = true;
}

pub quad-IsConsistent : IsConsistent quad
quad-IsConsistent = record {
  good = λ p pin out. elim (position 0 4 p) [
    | inl e ↦ rw e (record {
      free_block = λ st. record {
        small = omega arith;
        aligned = refl;
        inside = omega arith;
        tails = λ j l u. ground arith;
      };
      alloc_block = λ st. absurd (ground arith);
      chunk_page = λ st. absurd (ground arith);
      apart = λ st l. absurd (omega arith);
    })
    | inr (inl (l, u)) ↦ Good-tail (inl (ground arith))
    | inr (inr off) ↦ absurd (ground arith)
  ];
  listed = λ p k small. ground arith;
}

pub quad-IsPool : IsPool quad
quad-IsPool = omega arith

-- The first page of the block; the rest is a block of order 1 and one of order 0.
alloc_one :
    ((alloc_pages 0 quad).0 ≡ 0x81000000)
    × ((alloc_pages 0 quad).1.free_area 0 ≡ 1 ∷ [])
    × ((alloc_pages 0 quad).1.free_area 1 ≡ 2 ∷ [])
    × ((alloc_pages 0 quad).1.free_area 2 ≡ [])
unfolding alloc_pages find_block split_block remove_free_block add_free_block hand_out page_to_addr
alloc_one = (refl, refl, refl, refl)

-- Giving it back merges the three blocks again.
free_one :
    let s = free_pages 0x81000000 (alloc_pages 0 quad).1 in
    (s.free_area 0 ≡ []) × (s.free_area 1 ≡ []) × (s.free_area 2 ≡ 0 ∷ [])
unfolding alloc_pages find_block split_block remove_free_block add_free_block hand_out page_to_addr
    free_pages freed_page release merge join mark_block mark_tails
free_one = (refl, refl, refl)

alloc_pages-IsConsistent_example : IsConsistent (alloc_pages 0 quad).1
alloc_pages-IsConsistent_example = alloc_pages-IsConsistent 0 quad-IsConsistent

alloc_pages_lem_example :
    let (ptr, s') = alloc_pages 0 quad in
    ((ptr ≡ 0) × (s' ≡ quad) × ((k : ℕ) → 0 ≤ k → k ≤ max_order → quad.free_area k ≡ []))
    ⊎ ((idx : ℕ) × (ptr ≡ page_to_addr quad idx) × Allocated quad s' 0 idx)
alloc_pages_lem_example = alloc_pages_lem 0 quad-IsConsistent refl (omega arith)

free_pages-IsConsistent_example : IsConsistent (free_pages 0x81000000 (alloc_pages 0 quad).1)
free_pages-IsConsistent_example =
    free_pages-IsConsistent 0x81000000 (alloc_pages-IsConsistent 0 quad-IsConsistent)

free_pages_lem_example :
    let s = (alloc_pages 0 quad).1 in
    (((idx : ℕ) → ¬ HeadAt s 0x81000000 idx) × (free_pages 0x81000000 s ≡ s))
    ⊎ ((idx : ℕ) × HeadAt s 0x81000000 idx × Released s (free_pages 0x81000000 s) idx)
free_pages_lem_example = free_pages_lem 0x81000000 (alloc_pages-IsConsistent 0 quad-IsConsistent)

-- The page handed out, with the rest of the pool forgotten.
abbrev quad' : Buddy
quad' = record quad { frames = λ p. frame 0 alloc_page_head }

alloc-free_example : SameFree quad (free_pages (alloc_pages 0 quad).0 (alloc_pages 0 quad).1)
alloc-free_example =
    alloc-free 0 quad-IsConsistent quad-IsPool refl (omega arith) (rw (alloc_one.0) (omega arith))

set_region_overrun_example :
    let r = set_region 0x81000123 0x4000 quad in
    (r.mempool_size ≡ 0x4000) × (0x81000123 + 0x4000 < r.mempool_start + r.mempool_size)
set_region_overrun_example =
    set_region_overrun 0x81000123 0x4000 quad (omega arith) (omega arith) refl (omega arith)
      (omega arith)

init_lem_example : (s' : Buddy) × (init quad ≡ some s') × Ready quad s'
init_lem_example = init_lem quad
