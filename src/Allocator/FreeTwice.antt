-- ===== src/Allocator/FreeTwice.antt =====
-- `free` of a chunk that is out, and a second `free` of it.
use bare_metal_os.Base.{
  ℕ, ◌+◌, ◌-◌, ◌*◌, ◌%◌, ◌≤◌, ◌<◌, ◌≡◌, refl, inl, inr, Bool, true, false, not, ◌||◌, arith, leb,
  ◌==◌, Bool-cases,
}
use bare_metal_os.Base.Words.{word_mod}
use bare_metal_os.Config.{page_size}
use bare_metal_os.Buddy.{
  PageState, free_head, free_tail, reserved, alloc_page_head, alloc_page_tail, alloc_chunk_pool,
}
use bare_metal_os.Buddy.InHand.{IsPool}
use bare_metal_os.Allocator.{
  pool_count, addr_to_page_idx, free_chunk, in_region, is_live_chunk, free_at, free, Allocator,
}
use bare_metal_os.Allocator.Invariant.{
  page_of, addr_to_page_idx_lem, IsChunk-small, IsOut, IsChunk, IsValid,
}
use bare_metal_os.Allocator.FreeChunk.{base_lem, free_chunk-Back, Back}
use bare_metal_os.Allocator.Free.{in_region_lem, passes, free-Freed}

-- The tests of `free`: the ones on the address, and the ones on a chunk.
unfoldable pub guard : ℕ → Allocator → Bool
guard x a =
    not a.ready
    || ((x == 0)
        || (not (in_region x a.buddy) || leb a.buddy.total_page (addr_to_page_idx x a.buddy)))

guard-IsChunk :
    {a : Allocator} {size i : ℕ} (x : ℕ)
    → IsValid a
    → a.ready ≡ true
    → IsChunk a.buddy size i x
    → guard x a ≡ false
unfolding guard in_region
guard-IsChunk x v ready c =
    let r = v.region in
    let at = addr_to_page_idx_lem x r c.above (IsChunk-small r c) in
    ground (arith, at, c.above, c.inside, r.not_null, r.holds, r.no_wrap)

pub free-guarded :
    (x : ℕ) (a : Allocator)
    → IsPool a.buddy
    → a.buddy.mempool_start ≤ x
    → x < word_mod
    → guard x a ≡ false
    → let idx = page_of a.buddy x in
      free x a
      ≡ free_at x idx
          (a.buddy.mempool_start + idx * page_size)
          (a.buddy.frames idx).meta_pool_idx
          a
          (a.buddy.frames idx).state
unfolding free guard
free-guarded x a pool lo small t =
    rw (t, addr_to_page_idx_lem x pool lo small, base_lem x pool lo small) refl

free-live :
    (i x : ℕ) {a : Allocator}
    → IsValid a
    → a.ready ≡ true
    → i < pool_count
    → IsOut a i x
    → let idx = page_of a.buddy x in
      free x a ≡ free_chunk x idx (a.buddy.mempool_start + idx * page_size) i a
unfolding free_at is_live_chunk
free-live i x {a} v ready known o =
    let c = o.0 in
    let idx = page_of a.buddy x in
    let base = a.buddy.mempool_start + idx * page_size in
    let off : x - base ≡ x % page_size = omega (arith, c.above, v.region.aligned) in
    let live : is_live_chunk x base i a ≡ true = rw (off, c.placed, o.1) (ground arith) in
    rw
      (
        free-guarded x a v.region c.above (IsChunk-small v.region c) (guard-IsChunk x v ready c),
        c.pool_page,
        c.its_pool,
        live,
        free_at,
      )
      refl

free_at-idle :
    (x : ℕ) {a : Allocator}
    → IsValid a
    → in_region x a.buddy ≡ true
    → let idx = page_of a.buddy x in
      let base = a.buddy.mempool_start + idx * page_size in
      idx < a.buddy.total_page
      → Back a x
      → (st : PageState) → (a.buddy.frames idx).state ≡ st
      → free_at x idx base (a.buddy.frames idx).meta_pool_idx a st ≡ a
unfolding free_at
free_at-idle x {a} v region inside back alloc_chunk_pool st =
    let idx = page_of a.buddy x in
    let i = (a.buddy.frames idx).meta_pool_idx in
    elim (Bool-cases (is_live_chunk x (a.buddy.mempool_start + idx * page_size) i a)) [
      | inl live ↦ absurd (back.not_out i (passes x v region inside st live).1)
      | inr dead ↦ rw dead refl
    ]
free_at-idle x v region inside back alloc_page_head st = absurd (back.not_head st)
free_at-idle x v region inside back free_head st = refl
free_at-idle x v region inside back free_tail st = refl
free_at-idle x v region inside back reserved st = refl
free_at-idle x v region inside back alloc_page_tail st = refl

-- An address at which no chunk and no block is out: `free` changes nothing.
free-idle : (x : ℕ) {a : Allocator} → IsValid a → x < word_mod → Back a x → free x a ≡ a
free-idle x {a} v small back = elim (Bool-cases (guard x a)) [
  | inl t ↦ unfold free guard in rw t refl
  | inr t ↦
      let region : in_region x a.buddy ≡ true = unfold guard in ground arith in
      let lo = (in_region_lem x v.region region).0 in
      let at = addr_to_page_idx_lem x v.region lo small in
      let inside : page_of a.buddy x < a.buddy.total_page = unfold guard in ground (arith, at) in
      rw (free-guarded x a v.region lo small t)
        (free_at-idle x v region inside back (a.buddy.frames (page_of a.buddy x)).state refl)
]

-- `free` of a chunk that is out: the chunk is not out any more, and a second `free` of it changes
-- nothing.
pub free-twice :
    (i x : ℕ) {a : Allocator}
    → IsValid a
    → a.ready ≡ true
    → a.buddy.ready ≡ true
    → i < pool_count
    → IsOut a i x
    → ((j : ℕ) → ¬ IsOut (free x a) j x) × (free x (free x a) ≡ free x a)
free-twice i x {a} v ready on known o =
    let back : Back (free x a) x =
      rw (free-live i x v ready known o) (free_chunk-Back a i x v on known o) in
    (back.not_out, free-idle x (free-Freed x v on).valid (IsChunk-small v.region o.0) back)
