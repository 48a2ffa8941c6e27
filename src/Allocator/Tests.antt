-- ===== src/Allocator/Tests.antt =====
-- The allocator on a pool of four free pages, before and after a request of 2000 bytes.
use bare_metal_os.Base.{ℕ, ◌*◌, ◌≤◌, ◌<◌, ◌≡◌, refl, ◌≢◌, ◌⊎◌, inl, inr, true, [], ◌∷◌, arith}
use bare_metal_os.Base.Bits.{pow2}
use bare_metal_os.Config.{page_size, max_order}
use bare_metal_os.Buddy.{
  page_to_addr, mark_tails, mark_block, add_free_block, remove_free_block, find_block, split_block,
  hand_out, alloc_pages, alloc_page_head,
}
use bare_metal_os.Buddy.Alloc.{Allocated}
use bare_metal_os.Buddy.Tests.{quad, quad-IsConsistent, quad-IsPool}
use bare_metal_os.Allocator.{
  roundup_loop, roundup_order, addr_to_page_idx, find_pool, find_pool_index, add_chunks,
  expand_chunk_pool, take_chunk, allocate_chunk, allocate_pages, allocate, free, page_inc_ref,
  Allocator,
}
use bare_metal_os.Allocator.Invariant.{page_of, IsOut, IsValid}
use bare_metal_os.Allocator.Expand.{Keeps}
use bare_metal_os.Allocator.Take.{Handed}
use bare_metal_os.Allocator.Allocate.{allocate-chunk, allocate-pages}
use bare_metal_os.Allocator.FreeChunk.{Freed}
use bare_metal_os.Allocator.Free.{free-Freed}
use bare_metal_os.Allocator.Share.{free-page_inc_ref}
use bare_metal_os.Allocator.FreeTwice.{free-twice}

abbrev unused : Allocator
unused = record { buddy = quad; chunk_size = λ i. 16 * pow2 i; free_list = λ i. []; ready = true }

unused-IsValid : IsValid unused
unused-IsValid = record {
  pages = quad-IsConsistent;
  region = quad-IsPool;
  sizes = λ i l. refl;
  chunks = λ i x l pos. absurd (omega arith);
  once = λ i x l. omega arith;
  accounts = λ p l st. absurd (ground arith);
}

served : Allocator
served = (allocate 2000 unused).1

-- The second half of the first page is handed out, the first half is free.
serves :
    ((allocate 2000 unused).0 ≡ 0x81000800)
    × (served.free_list 7 ≡ 0x81000000 ∷ [])
    × ((served.buddy.frames 0).ref_count ≡ 1)
unfolding served allocate find_pool_index find_pool allocate_chunk expand_chunk_pool add_chunks
    take_chunk addr_to_page_idx alloc_pages find_block split_block remove_free_block add_free_block
    hand_out page_to_addr mark_block mark_tails
serves = (refl, refl, refl)

served-IsOut : IsOut served 7 0x81000800
unfolding served allocate find_pool_index find_pool allocate_chunk expand_chunk_pool add_chunks
    take_chunk addr_to_page_idx alloc_pages find_block split_block remove_free_block add_free_block
    hand_out page_to_addr mark_block mark_tails
served-IsOut = (
  record {
    above = omega arith;
    inside = omega arith;
    pool_page = refl;
    its_pool = refl;
    placed = refl;
  },
  refl,
)

served-Keeps : Keeps unused served
unfolding served
served-Keeps = elim (allocate-chunk 2000 unused-IsValid refl refl (omega arith) (omega arith)) [
  | inl (_, _, full) ↦ absurd (ground (arith, full 2 (omega arith)))
  | inr (i, large, least, kept, handed, new) ↦ kept
]

allocate-chunk_example :
    let (ck, a') = allocate 2000 unused in
    ((ck ≡ 0) × (a' ≡ unused) × ((k : ℕ) → k ≤ max_order → unused.buddy.free_area k ≡ []))
    ⊎ ((i : ℕ) × (2000 ≤ unused.chunk_size i)
        × ((k : ℕ) → k < i → unused.chunk_size k < 2000)
        × Keeps unused a'
        × Handed a' i ck
        × ((j x : ℕ) → IsOut unused j x → x ≢ ck))
allocate-chunk_example = allocate-chunk 2000 unused-IsValid refl refl (omega arith) (omega arith)

allocate-pages_example :
    let (ptr, a') = allocate 5000 unused in
    Keeps unused a'
    × ((order : ℕ) × (5000 ≤ pow2 order * page_size)
        × ((k : ℕ) → k < order → pow2 k * page_size < 5000)
        × (((ptr ≡ 0)
              × (a' ≡ unused)
              × ((k : ℕ) → order ≤ k → k ≤ max_order → unused.buddy.free_area k ≡ []))
            ⊎ ((idx : ℕ) × (ptr ≡ page_to_addr quad idx) × Allocated quad a'.buddy order idx)))
allocate-pages_example = allocate-pages 5000 unused-IsValid refl refl (omega arith) (omega arith)

free-Freed_example : Freed served (free 0x81000800 served) 0x81000800
free-Freed_example = free-Freed 0x81000800 served-Keeps.valid served-Keeps.ready

served_ready : served.ready ≡ true
unfolding served allocate find_pool_index find_pool allocate_chunk expand_chunk_pool add_chunks
    take_chunk addr_to_page_idx alloc_pages find_block split_block remove_free_block add_free_block
    hand_out page_to_addr mark_block mark_tails
served_ready = refl

free-twice_example :
    ((j : ℕ) → ¬ IsOut (free 0x81000800 served) j 0x81000800)
    × (free 0x81000800 (free 0x81000800 served) ≡ free 0x81000800 served)
free-twice_example =
    free-twice 7 0x81000800 served-Keeps.valid served_ready served-Keeps.ready (omega arith)
      served-IsOut

-- The first two pages are a block.
paged : Allocator
paged = (allocate 5000 unused).1

paged-Keeps : Keeps unused paged
unfolding paged
paged-Keeps = (allocate-pages 5000 unused-IsValid refl refl (omega arith) (omega arith)).0

paged-shape :
    (paged.ready ≡ true)
    × (paged.buddy.mempool_start ≡ 0x81000000)
    × (paged.buddy.total_page ≡ 4)
    × ((paged.buddy.frames 0).state ≡ alloc_page_head)
    × ((paged.buddy.frames 0).cow_ref_count ≡ 1)
unfolding paged allocate allocate_pages roundup_order roundup_loop alloc_pages find_block
    split_block remove_free_block add_free_block hand_out page_to_addr mark_block mark_tails
paged-shape = (refl, refl, refl, refl, refl)

paged-page : page_of paged.buddy 0x81000000 ≡ 0
paged-page = rw (paged-shape.1) refl

free-page_inc_ref_example : free 0x81000000 (page_inc_ref 0x81000000 paged) ≡ paged
free-page_inc_ref_example =
    free-page_inc_ref 0x81000000 paged paged-Keeps.valid paged-shape.0
      (omega (arith, paged-shape.1)) (rw (paged-page, paged-shape.2) (omega arith)) refl
      (rw paged-page paged-shape.3) (rw (paged-page, paged-shape.4) (omega arith))
      (rw (paged-page, paged-shape.4) (omega arith))
