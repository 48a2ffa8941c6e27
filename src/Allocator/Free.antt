-- ===== src/Allocator/Free.antt =====
-- `free`: every branch keeps the invariant and the other chunks.
use bare_metal_os.Base.{
  ℕ, ◌+◌, ◌-◌, ◌*◌, ◌%◌, ◌≤◌, ◌<◌, bit_and, ◌≡◌, refl, inl, inr, true, not, ◌||◌, arith, leb, ◌==◌,
  Bool-cases, count,
}
use bare_metal_os.Base.Words.{word_mod}
use bare_metal_os.Config.{page_size}
use bare_metal_os.Buddy.{
  PageState, Buddy, free_head, free_tail, reserved, alloc_page_head, alloc_page_tail,
  alloc_chunk_pool,
}
use bare_metal_os.Buddy.InHand.{IsPool}
use bare_metal_os.Allocator.{
  pool_count, addr_to_page_idx, in_region, is_live_chunk, free_at, free, Allocator,
}
use bare_metal_os.Allocator.Invariant.{page_of, addr_to_page_idx_lem, IsOut, IsValid}
use bare_metal_os.Allocator.Expand.{Keeps}
use bare_metal_os.Allocator.FreeChunk.{base_lem, free_chunk-Freed, Freed}
use bare_metal_os.Allocator.FreeBlock.{free_block-Keeps}

pub in_region_lem :
    (x : ℕ) {b : Buddy}
    → IsPool b
    → in_region x b ≡ true
    → (b.mempool_start ≤ x) × (x < b.mempool_start + b.mempool_size)
unfolding in_region
in_region_lem x pool e = ground (arith, pool.no_wrap)

is_live_chunk_lem :
    (x base i : ℕ) (a : Allocator)
    → is_live_chunk x base i a ≡ true
    → (i < pool_count) × ((x - base) % a.chunk_size i ≡ 0) × (count x (a.free_list i) ≡ 0)
unfolding is_live_chunk
is_live_chunk_lem x base i a e = ground arith

-- The tests of `free` on a chunk: what passes them is out.
pub passes :
    (x : ℕ) {a : Allocator}
    → IsValid a
    → in_region x a.buddy ≡ true
    → page_of a.buddy x < a.buddy.total_page
    → (a.buddy.frames (page_of a.buddy x)).state ≡ alloc_chunk_pool
    → let i = (a.buddy.frames (page_of a.buddy x)).meta_pool_idx in
      is_live_chunk x (a.buddy.mempool_start + page_of a.buddy x * page_size) i a ≡ true
      → (i < pool_count) × IsOut a i x
passes x {a} v region inside st live =
    let (lo, hi) = in_region_lem x v.region region in
    let page = page_of a.buddy x in
    let i = (a.buddy.frames page).meta_pool_idx in
    let base = a.buddy.mempool_start + page * page_size in
    let (known, placed, unlisted) = is_live_chunk_lem x base i a live in
    let off : x - base ≡ x % page_size = omega (arith, lo, v.region.aligned) in
    (
      known,
      (
        record {
          above = lo;
          inside = inside;
          pool_page = st;
          its_pool = refl;
          placed = rw off at placed;
        },
        unlisted,
      ),
    )

Keeps-refl : {a : Allocator} → IsValid a → Keeps a a
Keeps-refl v = record { valid = v; out = λ j y o. o; ready = refl }

Keeps-Freed : (x : ℕ) {a a' : Allocator} → Keeps a a' → Freed a a' x
Keeps-Freed x k = record { valid = k.valid; out = λ j y o ne. k.out j y o }

free_at-Freed :
    (x : ℕ) {a : Allocator}
    → IsValid a
    → a.buddy.ready ≡ true
    → in_region x a.buddy ≡ true
    → let idx = page_of a.buddy x in
      let base = a.buddy.mempool_start + idx * page_size in
      idx < a.buddy.total_page
      → (st : PageState) → (a.buddy.frames idx).state ≡ st
      → Freed a (free_at x idx base (a.buddy.frames idx).meta_pool_idx a st) x
unfolding free_at
free_at-Freed x {a} v on region inside alloc_chunk_pool st =
    let idx = page_of a.buddy x in
    let base = a.buddy.mempool_start + idx * page_size in
    let i = (a.buddy.frames idx).meta_pool_idx in
    elim (Bool-cases (is_live_chunk x base i a)) [
      | inl live ↦
          let (known, o) = passes x v region inside st live in
          rw live (free_chunk-Freed a i x v on known o)
      | inr dead ↦ rw dead (Keeps-Freed x (Keeps-refl v))
    ]
free_at-Freed x {a} v on region inside alloc_page_head st =
    elim (Bool-cases (bit_and x (page_size - 1) == 0)) [
      | inl start ↦ rw start (Keeps-Freed x (free_block-Keeps x (page_of a.buddy x) v st))
      | inr within ↦ rw within (Keeps-Freed x (Keeps-refl v))
    ]
free_at-Freed x v on region inside free_head st = Keeps-Freed x (Keeps-refl v)
free_at-Freed x v on region inside free_tail st = Keeps-Freed x (Keeps-refl v)
free_at-Freed x v on region inside reserved st = Keeps-Freed x (Keeps-refl v)
free_at-Freed x v on region inside alloc_page_tail st = Keeps-Freed x (Keeps-refl v)

-- With the buddy system on, `free` of any address keeps the invariant, and every chunk that is out
-- stays out, but for the one at this address.
pub free-Freed : (x : ℕ) {a : Allocator} → IsValid a → a.buddy.ready ≡ true → Freed a (free x a) x
unfolding free
free-Freed x {a} v on =
    let idx = addr_to_page_idx x a.buddy in
    elim (Bool-cases
      (not a.ready || ((x == 0) || (not (in_region x a.buddy) || leb a.buddy.total_page idx)))) [
        | inl t ↦ rw t (Keeps-Freed x (Keeps-refl v))
        | inr t ↦
            let region : in_region x a.buddy ≡ true = ground arith in
            let (lo, hi) = in_region_lem x v.region region in
            let small : x < word_mod = omega (arith, v.region.no_wrap) in
            let at = addr_to_page_idx_lem x v.region lo small in
            let inside : page_of a.buddy x < a.buddy.total_page = ground (arith, at) in
            rw (t, at, base_lem x v.region lo small)
              (free_at-Freed x v on region inside (a.buddy.frames (page_of a.buddy x)).state refl)
      ]
