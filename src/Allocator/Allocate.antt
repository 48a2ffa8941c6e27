-- ===== src/Allocator/Allocate.antt =====
-- `allocate`: chunks for small requests, blocks of pages for large ones.
use native.Mathlib.Decide.{dec_lt}
use bare_metal_os.Base.{
  ℕ, ◌+◌, ◌-◌, ◌*◌, ◌/◌, ◌≤◌, ◌<◌, ◌≡◌, refl, ◌∙◌, ◌≢◌, ◌⊎◌, inl, inr, true, false, not, ◌||◌, [],
  arith, ltb, leb, ◌==◌, Bool-cases,
}
use bare_metal_os.Base.Bits.{pow2, pow2_mono}
use bare_metal_os.Config.{page_size, max_order, max_alloc_size}
use bare_metal_os.Buddy.{page_to_addr, alloc_pages, Buddy, alloc_chunk_pool}
use bare_metal_os.Buddy.InHand.{IsConsistent, position}
use bare_metal_os.Buddy.Alloc.{
  alloc_pages-reject, alloc_pages-IsConsistent, alloc_pages_lem, Allocated,
}
use bare_metal_os.Buddy.RoundTrip.{alloc_pages-SamePool, IsFree-dec, SamePool}
use bare_metal_os.Allocator.{
  pool_count, roundup_order, is_empty, allocate_chunk, allocate_pages, allocate, Allocator,
}
use bare_metal_os.Allocator.Sizes.{roundup_order-Least, find_pool_index_lem}
use bare_metal_os.Allocator.Invariant.{page_of, IsOut, IsChunk, IsValid}
use bare_metal_os.Allocator.Expand.{expand_chunk_pool_lem, Keeps}
use bare_metal_os.Allocator.Take.{take_chunk_lem, Handed}

-- A new state `b` of the buddy system with the same pool pages.
abbrev pub SameChunks : Buddy → Buddy → Type 0
SameChunks s b =
    ((p : ℕ) → (s.frames p).state ≡ alloc_chunk_pool → b.frames p ≡ s.frames p)
    × ((p : ℕ) → (b.frames p).state ≡ alloc_chunk_pool → (s.frames p).state ≡ alloc_chunk_pool)

module _ (a : Allocator) (b : Buddy) (v : IsValid a) (good : IsConsistent b)
    (same : SamePool a.buddy b) (chunks : SameChunks a.buddy b) where
  pages-IsChunk : (size j x : ℕ) → IsChunk a.buddy size j x → IsChunk b size j x
  pages-IsChunk size j x c =
      let e = chunks.0 (page_of a.buddy x) c.pool_page in
      rw same.start (record {
        above = c.above;
        inside = rw same.total c.inside;
        pool_page = rw e c.pool_page;
        its_pool = rw e c.its_pool;
        placed = c.placed;
      })

  pub pages-Keeps : Keeps a (record a { buddy = b })
  pages-Keeps = record {
    valid = record {
      pages = good;
      region = record {
        not_null = rw same.start v.region.not_null;
        aligned = rw same.start v.region.aligned;
        holds = rw (same.total, same.size) v.region.holds;
        no_wrap = rw (same.start, same.size) v.region.no_wrap;
      };
      sizes = v.sizes;
      chunks = λ j x l pos. pages-IsChunk (a.chunk_size j) j x (v.chunks j x l pos);
      once = v.once;
      accounts = λ p l st.
          let st' = chunks.1 p st in
          let e = chunks.0 p st' in
          let acc = v.accounts p (omega (arith, same.total)) st' in
          record { pool = rw e acc.pool; balance = rw (e, same.start) acc.balance };
    };
    out = λ j x o. (pages-IsChunk (a.chunk_size j) j x o.0, o.1);
    ready = same.ready;
  }

Allocated-SameChunks : {s b : Buddy} {order idx : ℕ} → Allocated s b order idx → SameChunks s b
Allocated-SameChunks {s} {b} {order} {idx} fresh =
    (λ p st. fresh.others p (ground arith), λ p st. back p st)
  where
    back : (p : ℕ) → (b.frames p).state ≡ alloc_chunk_pool → (s.frames p).state ≡ alloc_chunk_pool
    back p st = elim (IsFree-dec (s.frames p).state) [
      | inr busy ↦ rw (← fresh.others p busy) st
      | inl free' ↦ elim (position idx (pow2 order) p) [
        | inl e ↦ absurd (ground (arith, fresh.head, rw e at st))
        | inr (inl (l, u)) ↦ absurd (ground (arith, fresh.tails p l u))
        | inr (inr out) ↦ absurd (ground (arith, fresh.keep_free p out free'))
      ]
    ]

-- Large requests.
allocate_pages_lem :
    (order : ℕ) {a : Allocator}
    → IsValid a
    → a.buddy.ready ≡ true
    → let (ptr, b) = alloc_pages order a.buddy in
      Keeps a (record a { buddy = b })
      × (((ptr ≡ 0)
            × (record a { buddy = b } ≡ a)
            × ((k : ℕ) → order ≤ k → k ≤ max_order → a.buddy.free_area k ≡ []))
          ⊎ ((idx : ℕ) × (ptr ≡ page_to_addr a.buddy idx) × Allocated a.buddy b order idx))
allocate_pages_lem order {a} v on = elim (dec_lt max_order order) [
  | yes large ↦ rw (alloc_pages-reject order a.buddy (ground arith)) (
    record { valid = v; out = λ j x o. o; ready = refl },
    inl (refl, refl, λ k l small. absurd (omega arith)),
  )
  | no small ↦ elim (alloc_pages_lem order v.pages on (omega arith)) [
    | inl (null, same, empty) ↦
        rw same (record { valid = v; out = λ j x o. o; ready = refl }, inl (null, refl, empty))
    | inr (idx, at, fresh) ↦ (
      pages-Keeps a (alloc_pages order a.buddy).1 v (alloc_pages-IsConsistent order v.pages)
          (alloc_pages-SamePool order a.buddy) (Allocated-SameChunks fresh),
      inr (idx, at, fresh),
    )
  ]
]

-- Small requests.
allocate_chunk_lem :
    (i : ℕ) {a : Allocator}
    → IsValid a
    → a.buddy.ready ≡ true
    → i < pool_count
    → let (ck, a') = allocate_chunk i a in
      ((ck ≡ 0) × (a' ≡ a) × ((k : ℕ) → k ≤ max_order → a.buddy.free_area k ≡ []))
      ⊎ (Keeps a a' × Handed a' i ck × ((j x : ℕ) → IsOut a j x → x ≢ ck))
unfolding allocate_chunk
allocate_chunk_lem i {a} v on known = elim (Bool-cases (is_empty (a.free_list i))) [
  | inr some' ↦ rw some' (inr (take_chunk_lem i v known some'))
  | inl empty ↦ elim (expand_chunk_pool_lem i v on known) [
    | inl (failed, full) ↦ rw (empty, failed) (inl (refl, refl, full))
    | inr (a', e, kept, some') ↦
        let (k, h, new) = take_chunk_lem i kept.valid known some' in
        rw (empty, e)
          (inr (
            record {
              valid = k.valid;
              out = λ j x o. k.out j x (kept.out j x o);
              ready = k.ready ∙ kept.ready;
            },
            h,
            λ j x o. new j x (kept.out j x o),
          ))
  ]
]

-- A request that `allocate` serves with a chunk: with the allocator on, up to 2048 bytes.
-- It fails only if the buddy system has no free block, and then changes nothing. Else it keeps the
-- invariant and every chunk that is out stays out; it hands out a chunk of the first pool whose
-- chunks are large enough, which lies in the pool of pages, was not out before, and is now on no
-- free list.
pub allocate-chunk :
    (size : ℕ) {a : Allocator}
    → IsValid a
    → a.ready ≡ true
    → a.buddy.ready ≡ true
    → 0 < size
    → size ≤ 2048
    → let (ck, a') = allocate size a in
      ((ck ≡ 0) × (a' ≡ a) × ((k : ℕ) → k ≤ max_order → a.buddy.free_area k ≡ []))
      ⊎ ((i : ℕ) × (size ≤ a.chunk_size i)
          × ((k : ℕ) → k < i → a.chunk_size k < size)
          × Keeps a a'
          × Handed a' i ck
          × ((j x : ℕ) → IsOut a j x → x ≢ ck))
unfolding allocate
allocate-chunk size {a} v ready on pos small =
    let r : (not a.ready || ((size == 0) || ltb max_alloc_size size)) ≡ false = ground arith in
    let s : leb size 2048 ≡ true = ground arith in
    elim (find_pool_index_lem size a v.sizes) [
      | inr (_, big) ↦ absurd (omega arith)
      | inl (i, found, known, large, least) ↦ elim (allocate_chunk_lem i v on known) [
        | inl failed ↦ rw (r, s, found) (inl failed)
        | inr (kept, handed, new) ↦ rw (r, s, found) (inr (i, large, least, kept, handed, new))
      ]
    ]

-- A request that `allocate` serves with pages: with the allocator on, of more than 2048 bytes up to
-- MAX_ALLOC_SIZE. It keeps the invariant and every chunk that is out stays out. It fails only if no
-- free block of the order is left, that is, of the least order whose block holds the request or above, and then changes nothing; else
-- it hands out the block of that order that `buddy_alloc_pages` does.
pub allocate-pages :
    (size : ℕ) {a : Allocator}
    → IsValid a
    → a.ready ≡ true
    → a.buddy.ready ≡ true
    → 2048 < size
    → size ≤ max_alloc_size
    → let (ptr, a') = allocate size a in
      Keeps a a'
      × ((order : ℕ) × (size ≤ pow2 order * page_size)
          × ((k : ℕ) → k < order → pow2 k * page_size < size)
          × (((ptr ≡ 0)
                × (a' ≡ a)
                × ((k : ℕ) → order ≤ k → k ≤ max_order → a.buddy.free_area k ≡ []))
              ⊎ ((idx : ℕ) × (ptr ≡ page_to_addr a.buddy idx)
                  × Allocated a.buddy a'.buddy order idx)))
unfolding allocate allocate_pages
allocate-pages size {a} v ready on large bound =
    let pages = (size + page_size - 1) / page_size in
    let least = roundup_order-Least pages (omega (arith, pow2_mono 31 63 (omega arith))) in
    let r : (not a.ready || ((size == 0) || ltb max_alloc_size size)) ≡ false = ground arith in
    let s : leb size 2048 ≡ false = ground arith in
    let (kept, got) = allocate_pages_lem (roundup_order pages) v on in
    rw (r, s)
      (
        kept,
        (
          roundup_order pages,
          omega (arith, least.holds),
          λ k l. omega (arith, least.least k l),
          got,
        ),
      )
