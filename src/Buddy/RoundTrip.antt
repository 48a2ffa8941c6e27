-- ===== src/Buddy/RoundTrip.antt =====
-- `buddy_alloc_pages` followed by `buddy_free_pages` of its result.
use bare_metal_os.Base.{
  ℕ, zero, suc, ◌+◌, ◌-◌, ◌*◌, ◌/◌, ◌%◌, ◌≤◌, ◌<◌, bit_and, bit_xor, min, ◌≡◌, refl, ◌∙◌, ◌≢◌, ◌↔◌,
  ◌⊎◌, inl, inr, true, not, ◌||◌, some, arith, ltb, Bool-cases, Option-cases,
}
use bare_metal_os.Base.Bits.{pow2, pow2_pos, bit_and-mask}
use bare_metal_os.Base.Words.{add64, sub64}
use bare_metal_os.Config.{page_size, max_order}
use bare_metal_os.Buddy.{
  page_to_addr, mark_block, add_free_block, remove_free_block, find_block, split_block, hand_out,
  alloc_pages, can_merge, join, merge, freed_page, release, free_pages, PageState, Buddy, free_head,
  free_tail, reserved, alloc_page_head, alloc_page_tail, alloc_chunk_pool,
}
use bare_metal_os.Buddy.InHand.{Outside, IsConsistent, position, IsFree, IsPool}
use bare_metal_os.Buddy.Alloc.{alloc_pages-IsConsistent, alloc_pages_lem, Allocated}
use bare_metal_os.Buddy.Free.{end_of, free_pages_cases, Released}

-- The two states have the same pool.
pub record SamePool (s s' : Buddy) : Type 0 where
  pub start : s'.mempool_start ≡ s.mempool_start
  pub size : s'.mempool_size ≡ s.mempool_size
  pub total : s'.total_page ≡ s.total_page
  pub ready : s'.ready ≡ s.ready

split_block-SamePool : (k order idx : ℕ) (s : Buddy) → SamePool s (split_block k order idx s)
unfolding split_block add_free_block
split_block-SamePool zero order idx s = record {
  start = refl;
  size = refl;
  total = refl;
  ready = refl;
}
split_block-SamePool (suc c) order idx s =
    ground (arith, split_block-SamePool c order idx (add_free_block (idx + pow2 c) c s))

pub alloc_pages-SamePool : (order : ℕ) (s : Buddy) → SamePool s (alloc_pages order s).1
unfolding alloc_pages hand_out remove_free_block
alloc_pages-SamePool order s = elim (Bool-cases (not s.ready || ltb max_order order)) [
  | inl t ↦ rw t (record { start = refl; size = refl; total = refl; ready = refl })
  | inr t ↦ rw t (elim (Option-cases (find_block (max_order + 1 - order) order s.free_area)) [
    | inl e ↦ rw e (record { start = refl; size = refl; total = refl; ready = refl })
    | inr ((idx, k), e) ↦
        rw e (ground (arith, split_block-SamePool k order idx (remove_free_block idx s)))
  ])
]

merge-SamePool : (n idx order : ℕ) (s : Buddy) → SamePool s (merge n idx order s).2
unfolding merge join remove_free_block
merge-SamePool zero idx order s = record { start = refl; size = refl; total = refl; ready = refl }
merge-SamePool (suc n) idx order s = elim (Bool-cases (can_merge idx order s)) [
  | inr t ↦ rw (t, merge) (record { start = refl; size = refl; total = refl; ready = refl })
  | inl t ↦
      rw (t, merge)
        (ground (
          arith,
          merge-SamePool n (min (bit_xor idx (pow2 order)) idx) (order + 1) (join idx order s),
        ))
]

pub free_pages-SamePool : (addr : ℕ) (s : Buddy) → SamePool s (free_pages addr s)
unfolding free_pages release add_free_block
free_pages-SamePool addr s = elim (Option-cases (freed_page addr s)) [
  | inl e ↦ rw (e, free_pages) (record { start = refl; size = refl; total = refl; ready = refl })
  | inr (idx, e) ↦
      let order = (s.frames idx).order in
      let same =
        merge-SamePool (max_order + 1) idx order
          (record s { frames = mark_block idx order free_head free_tail s.frames }) in
      rw (e, free_pages)
        (record { start = same.start; size = same.size; total = same.total; ready = same.ready })
]

-- The address of a page in the pool does not wrap round.
pub page_to_addr_lem :
    {s : Buddy} (idx : ℕ)
    → IsPool s
    → idx < s.total_page
    → page_to_addr s idx ≡ s.mempool_start + idx * page_size
unfolding page_to_addr
page_to_addr_lem {s} idx pool inside = omega (arith, pool.holds, pool.no_wrap)

-- `buddy_free_pages` finds the page of an allocated head from its address.
pub freed_page-page_to_addr :
    {s : Buddy} (idx : ℕ)
    → IsPool s
    → s.ready ≡ true
    → idx < s.total_page
    → (s.frames idx).state ≡ alloc_page_head
    → freed_page (page_to_addr s idx) s ≡ some idx
unfolding freed_page
freed_page-page_to_addr {s} idx pool on inside head =
    let a : ℕ = s.mempool_start + idx * page_size in
    let mask : bit_and a (page_size - 1) ≡ a % page_size = bit_and-mask 12 a in
    let low : a % page_size ≡ 0 = omega (arith, pool.aligned) in
    let index : sub64 a s.mempool_start / page_size ≡ idx =
      omega (arith, pool.holds, pool.no_wrap) in
    let top : add64 s.mempool_start s.mempool_size ≡ s.mempool_start + s.mempool_size =
      omega (arith, pool.no_wrap) in
    rw (page_to_addr_lem idx pool inside, mask, low, index, top, on, head)
      (ground (arith, pool.not_null, pool.holds))

pub IsFree-dec : (st : PageState) → (IsFree st) ⊎ (¬ IsFree st)
IsFree-dec free_head = inl (inl refl)
IsFree-dec free_tail = inl (inr refl)
IsFree-dec reserved = inr (λ h. ground arith)
IsFree-dec alloc_page_head = inr (λ h. ground arith)
IsFree-dec alloc_page_tail = inr (λ h. ground arith)
IsFree-dec alloc_chunk_pool = inr (λ h. ground arith)

-- The same pages are free in both states, and no other page differs.
pub record SameFree (s s' : Buddy) : Type 0 where
  pub free : (p : ℕ) → IsFree (s.frames p).state ↔ IsFree (s'.frames p).state
  pub busy : (p : ℕ) → ¬ IsFree (s.frames p).state → s'.frames p ≡ s.frames p

-- A block that is handed out and then given back.
there_and_back :
    {s s' s'' : Buddy} {order idx : ℕ}
    → Allocated s s' order idx
    → Released s' s'' idx
    → SameFree s s''
there_and_back {s} {s'} {s''} {order} {idx} a r = record {
  free = λ p. (forth p, back p);
  busy = busy;
}
  where
    its_end : end_of s' idx ≡ idx + pow2 order
    its_end = rw a.order_set

    outside_block : (p : ℕ) → ¬ IsFree (s.frames p).state → Outside idx (idx + pow2 order) p
    outside_block p b = elim (position idx (pow2 order) p) [
      | inl e ↦ absurd (b (a.was_free p (omega arith) (omega (arith, pow2_pos order))))
      | inr (inl (l, u)) ↦ absurd (b (a.was_free p (omega arith) u))
      | inr (inr off) ↦ off
    ]

    busy : (p : ℕ) → ¬ IsFree (s.frames p).state → s''.frames p ≡ s.frames p
    busy p b = let e = a.others p b in r.others p (rw its_end (outside_block p b)) (rw e b) ∙ e

    forth : (p : ℕ) → IsFree (s.frames p).state → IsFree (s''.frames p).state
    forth p f = elim (position idx (pow2 order) p) [
      | inl e ↦ r.now_free p (omega arith) (rw its_end (omega (arith, pow2_pos order)))
      | inr (inl (l, u)) ↦ r.now_free p (omega arith) (rw its_end u)
      | inr (inr off) ↦ r.keep_free p (a.keep_free p off f)
    ]

    back : (p : ℕ) → IsFree (s''.frames p).state → IsFree (s.frames p).state
    back p f = elim (IsFree-dec (s.frames p).state) [
      | inl yes' ↦ yes'
      | inr no' ↦ absurd (no' (rw (busy p no') at f))
    ]

-- A block that `buddy_alloc_pages` hands out, `buddy_free_pages` takes back: the same pages are
-- free as before, and no other page differs.
pub alloc-free :
    (order : ℕ) {s : Buddy}
    → IsConsistent s
    → IsPool s
    → s.ready ≡ true
    → order ≤ max_order
    → (alloc_pages order s).0 ≢ 0
    → let (ptr, s') = alloc_pages order s in SameFree s (free_pages ptr s')
alloc-free order {s} c pool on small ok = elim (alloc_pages_lem order c on small) [
  | inl failed ↦ absurd (ok failed.0)
  | inr (idx, at, a) ↦
      let s' = (alloc_pages order s).1 in
      let same = alloc_pages-SamePool order s in
      let inside : idx < s.total_page = omega (arith, a.inside, pow2_pos order) in
      let pool' : IsPool s' = record {
        not_null = rw same.start pool.not_null;
        aligned = rw same.start pool.aligned;
        holds = rw (same.total, same.size) pool.holds;
        no_wrap = rw (same.start, same.size) pool.no_wrap;
      } in
      let found : freed_page (page_to_addr s' idx) s' ≡ some idx =
        freed_page-page_to_addr idx pool' (same.ready ∙ on) (rw same.total inside) a.head in
      let here : (alloc_pages order s).0 ≡ page_to_addr s' idx =
        at ∙ unfold page_to_addr in rw same.start in
      let found' : freed_page (alloc_pages order s).0 s' ≡ some idx = rw here found in
      elim (free_pages_cases (alloc_pages order s).0 (alloc_pages-IsConsistent order c)) [
        | inl unknown ↦ absurd (ground (arith, unknown.0))
        | inr (j, e, r) ↦
            let is_idx : j ≡ idx = ground (arith, e) in there_and_back a (rw is_idx at r)
      ]
]
