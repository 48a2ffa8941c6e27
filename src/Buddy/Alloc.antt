-- ===== src/Buddy/Alloc.antt =====
-- `buddy_alloc_pages`: the search, and what a call gives.
use native.Mathlib.Decide.{ℕ_discrete, dec_lt}
use bare_metal_os.Base.{
  ℕ, zero, suc, ◌+◌, ◌-◌, ◌%◌, ◌≤◌, ◌<◌, ◌≡◌, refl, ◌≢◌, ◌⊎◌, inl, inr, true, false, not, ◌&&◌,
  ◌||◌, Option, none, some, List, [], arith, ltb, ◌==◌, if◌then◌else◌, Bool-cases, Option-cases,
  count, List-cases,
}
use bare_metal_os.Base.Bits.{pow2, pow2_pos, pow2_mono, aligned_le}
use bare_metal_os.Base.Words.{minus_one}
use bare_metal_os.Config.{max_order}
use bare_metal_os.Buddy.{
  page_to_addr, remove_free_block, find_block, split_block, hand_out, alloc_pages, Buddy, free_head,
  free_tail, alloc_page_head, alloc_page_tail,
}
use bare_metal_os.Buddy.InHand.{Outside, IsConsistent, position, IsFree, Block, InHand}
use bare_metal_os.Buddy.Take.{remove_free_block-InHand}
use bare_metal_os.Buddy.Split.{
  total-split_block, split_block-InHand, split_block_ne, split_block-IsFree,
}
use bare_metal_os.Buddy.HandOut.{hand_out-at, hand_out-IsConsistent}

-- The search finds the first non-empty list of order `current` or above.
find_block-some :
    (n current : ℕ) (areas : ℕ → List ℕ) {idx k : ℕ}
    → find_block n current areas ≡ some (idx, k)
    → (current ≤ k) × (k < current + n) × (0 < count idx (areas k))
unfolding find_block
find_block-some zero current areas h = absurd (ground arith)
find_block-some (suc n) current areas {idx} {k} h = elim (List-cases (areas current)) [
  | inl e ↦
      let rest =
        find_block-some n (current + 1) areas {idx = idx} {k = k} (rw (e, find_block) at h) in
      (omega arith, omega arith, rest.2)
  | inr (x, xs, e) ↦
      let found : ◌≡◌ {A = Option (ℕ × ℕ)} (some (x, current)) (some (idx, k)) =
        rw (e, find_block) at h in
      (ground arith, ground arith, ground (arith, e))
]

find_block-none :
    (n current : ℕ) (areas : ℕ → List ℕ)
    → find_block n current areas ≡ none
    → (k : ℕ) → current ≤ k
    → k < current + n
    → areas k ≡ []
unfolding find_block
find_block-none zero current areas h k l u = absurd (omega arith)
find_block-none (suc n) current areas h k l u = elim (List-cases (areas current)) [
  | inl e ↦ elim (ℕ_discrete k current) [
    | yes here ↦ rw here e
    | no later ↦
        find_block-none n (current + 1) areas (rw (e, find_block) at h) k (omega arith)
          (omega arith)
  ]
  | inr (x, xs, e) ↦
      let found : ◌≡◌ {A = Option (ℕ × ℕ)} (some (x, current)) none = rw (e, find_block) at h in
      absurd (ground arith)
]

-- A page that stands in a free list heads a free block of that order.
record Listed (s : Buddy) (idx k : ℕ) : Type 0 where
  inside : idx < s.total_page
  head : (s.frames idx).state ≡ free_head
  is_k : (s.frames idx).order ≡ k
  block : Block s.frames s.total_page idx k free_tail

count-Listed :
    {s : Buddy} (idx k : ℕ)
    → IsConsistent s
    → k ≤ max_order
    → 0 < count idx (s.free_area k)
    → Listed s idx k
count-Listed {s} idx k c small pos =
    let e = c.listed idx k small in
    let inside : idx < s.total_page = ground arith in
    let head : (s.frames idx).state ≡ free_head = ground arith in
    let is_k : (s.frames idx).order ≡ k = ground arith in
    record {
      inside = inside;
      head = head;
      is_k = is_k;
      block = rw is_k at ((c.good idx inside (inr (omega arith))).free_block head);
    }

-- What a successful call does, with the block at page `idx`: it lies in the pool, aligned to its
-- size; all its pages were free and are now allocated; the other free pages stay free; and no page
-- that was not free is written.
pub record Allocated (s s' : Buddy) (order idx : ℕ) : Type 0 where
  pub aligned : idx % pow2 order ≡ 0
  pub inside : idx + pow2 order ≤ s.total_page
  pub was_free : (p : ℕ) → idx ≤ p → p < idx + pow2 order → IsFree (s.frames p).state
  pub keep_free :
      (p : ℕ)
      → Outside idx (idx + pow2 order) p
      → IsFree (s.frames p).state
      → IsFree (s'.frames p).state
  pub head : (s'.frames idx).state ≡ alloc_page_head
  pub order_set : (s'.frames idx).order ≡ order
  pub one_owner : (s'.frames idx).cow_ref_count ≡ 1
  pub tails : (p : ℕ) → idx < p → p < idx + pow2 order → (s'.frames p).state ≡ alloc_page_tail
  pub others : (p : ℕ) → ¬ IsFree (s.frames p).state → s'.frames p ≡ s.frames p

-- The state after a search that found page `idx` in the list of order `k`.
abbrev carved : ℕ → ℕ → ℕ → Buddy → Buddy
carved idx k order s = hand_out idx order (split_block k order idx (remove_free_block idx s))

module _ {s : Buddy} (order idx k : ℕ) (c : IsConsistent s) (le : order ≤ k) (small : k ≤ max_order)
    (pos : 0 < count idx (s.free_area k)) where
  at_head : Listed s idx k
  at_head = count-Listed idx k c small pos

  taken : InHand idx (idx + pow2 k) (remove_free_block idx s)
  taken =
      remove_free_block-InHand idx k idx (idx + pow2 k) (inl (refl, refl, refl)) (omega arith) c
        at_head.inside at_head.head at_head.is_k

  cut : InHand idx (idx + pow2 order) (split_block k order idx (remove_free_block idx s))
  cut =
      split_block-InHand k order idx (remove_free_block idx s) le small at_head.block.aligned
        (unfold remove_free_block in at_head.block.inside) taken

  total-cut : (split_block k order idx (remove_free_block idx s)).total_page ≡ s.total_page
  unfolding remove_free_block
  total-cut = total-split_block k order idx (remove_free_block idx s)

  aligned' : idx % pow2 order ≡ 0
  aligned' = aligned_le order k idx le at_head.block.aligned

  fits_in : pow2 order ≤ pow2 k
  fits_in = pow2_mono order k le

  within : idx + pow2 order ≤ (split_block k order idx (remove_free_block idx s)).total_page
  within = rw total-cut (omega (arith, fits_in, at_head.block.inside))

  carved-IsConsistent : IsConsistent (carved idx k order s)
  carved-IsConsistent =
      hand_out-IsConsistent idx order (omega (arith, le, small)) aligned' within cut

  carved-at :
      (p : ℕ)
      → (carved idx k order s).frames p ≡ (
          if p == idx
          then record ((split_block k order idx (remove_free_block idx s)).frames p) {
            order = order;
            state = alloc_page_head;
            cow_ref_count = 1;
          }
          else if ltb idx p && ltb p (idx + pow2 order)
          then record ((split_block k order idx (remove_free_block idx s)).frames p) {
            order = minus_one;
            state = alloc_page_tail;
          }
          else (split_block k order idx (remove_free_block idx s)).frames p)
  carved-at p = hand_out-at idx order (omega (arith, le, small)) aligned' within cut p

  carved_others :
      (p : ℕ) → (p < idx) ⊎ (idx + pow2 k ≤ p) → (carved idx k order s).frames p ≡ s.frames p
  unfolding remove_free_block
  carved_others p off = ground (
    arith,
    fits_in,
    pow2_pos k,
    carved-at p,
    split_block_ne k order idx (remove_free_block idx s) p,
  )

  carved_keeps :
      (p : ℕ)
      → Outside idx (idx + pow2 order) p
      → IsFree (s.frames p).state
      → IsFree ((carved idx k order s).frames p).state
  carved_keeps p out free = elim (dec_lt p idx) [
    | yes l ↦ rw (carved_others p (inl l)) free
    | no nl ↦ elim (dec_lt p (idx + pow2 k)) [
      | yes u ↦
          let split = split_block-IsFree k order idx (remove_free_block idx s) p (ground arith) u in
          ground (arith, carved-at p, split, pow2_pos order)
      | no nu ↦ rw (carved_others p (inr (omega arith))) free
    ]
  ]

  carved-Allocated : Allocated s (carved idx k order s) order idx
  carved-Allocated = record {
    aligned = aligned';
    inside = omega (arith, fits_in, at_head.block.inside);
    was_free = λ p l u. ground (arith, fits_in, at_head.head, at_head.block.tails p);
    head = ground (arith, carved-at idx);
    order_set = ground (arith, carved-at idx);
    one_owner = ground (arith, carved-at idx);
    tails = λ p l u. ground (arith, carved-at p);
    keep_free = λ p out free. carved_keeps p out free;
    others = λ p busy. carved_others p (not_in_block p (λ e. busy (inl e)) (λ e. busy (inr e)));
  }
    where
      not_in_block :
          (p : ℕ)
          → (s.frames p).state ≢ free_head
          → (s.frames p).state ≢ free_tail
          → (p < idx) ⊎ (idx + pow2 k ≤ p)
      not_in_block p nh nt = elim (position idx (pow2 k) p) [
        | inl e ↦ absurd (nh (rw e at_head.head))
        | inr (inl (l, h)) ↦ absurd (nt (at_head.block.tails p l h))
        | inr (inr off) ↦ off
      ]

-- The branch of `buddy_alloc_pages` where the search has the outcome `found`.
abbrev outcome : Option (ℕ × ℕ) → ℕ → Buddy → ℕ × Buddy
outcome found order s = elim found [
  | none ↦ (0, s)
  | some (idx, k) ↦ (page_to_addr s idx, carved idx k order s)
]

alloc_pages-outcome :
    (order : ℕ) (s : Buddy)
    → (not s.ready || ltb max_order order) ≡ false
    → alloc_pages order s ≡ outcome (find_block (max_order + 1 - order) order s.free_area) order s
unfolding alloc_pages
alloc_pages-outcome order s e = rw e

-- A call before the system is ready, or with an order that does not exist.
pub alloc_pages-reject :
    (order : ℕ) (s : Buddy)
    → (not s.ready || ltb max_order order) ≡ true
    → alloc_pages order s ≡ (0, s)
unfolding alloc_pages
alloc_pages-reject order s e = rw e refl

-- `buddy_alloc_pages` keeps the invariant on every branch.
pub alloc_pages-IsConsistent :
    (order : ℕ) {s : Buddy} → IsConsistent s → IsConsistent (alloc_pages order s).1
alloc_pages-IsConsistent order {s} c = elim (Bool-cases (not s.ready || ltb max_order order)) [
  | inl t ↦ unfold alloc_pages in rw t c
  | inr t ↦
      let open_order : order ≤ max_order = ground arith in
      rw (alloc_pages-outcome order s t)
        (elim (Option-cases (find_block (max_order + 1 - order) order s.free_area)) [
          | inl e ↦ rw e c
          | inr ((idx, k), e) ↦
              let f = find_block-some (max_order + 1 - order) order s.free_area e in
              rw e (carved-IsConsistent order idx k c f.0 (omega (arith, f.1)) f.2)
        ])
]

-- With an order that exists, `buddy_alloc_pages` fails only if no list of that order or above
-- has a block, and then changes nothing; else it hands out a block of free pages.
pub alloc_pages_lem :
    (order : ℕ) {s : Buddy}
    → IsConsistent s
    → s.ready ≡ true
    → order ≤ max_order
    → let (ptr, s') = alloc_pages order s in
      ((ptr ≡ 0) × (s' ≡ s) × ((k : ℕ) → order ≤ k → k ≤ max_order → s.free_area k ≡ []))
      ⊎ ((idx : ℕ) × (ptr ≡ page_to_addr s idx) × Allocated s s' order idx)
alloc_pages_lem order {s} c on small =
    rw (alloc_pages-outcome order s (ground arith))
      (elim (Option-cases (find_block (max_order + 1 - order) order s.free_area)) [
        | inl e ↦ rw e (
            inl (
              refl,
              refl,
              λ k l u.
                  find_block-none (max_order + 1 - order) order s.free_area e k l (omega arith),
            ))
        | inr ((idx, k), e) ↦
            let f = find_block-some (max_order + 1 - order) order s.free_area e in
            rw e (inr (idx, refl, carved-Allocated order idx k c f.0 (omega (arith, f.1)) f.2))
      ])
