-- ===== src/Buddy/Free.antt =====
-- `buddy_free_pages`: the block that is given back, and what a call leaves alone.
use native.Mathlib.Decide.{dec_lt}
use bare_metal_os.Base.{
  ℕ, ◌+◌, ◌≤◌, ◌<◌, ◌≡◌, refl, ◌∙◌, ◌⊎◌, inl, inr, none, some, arith, Option-cases,
}
use bare_metal_os.Base.Bits.{pow2}
use bare_metal_os.Config.{max_order}
use bare_metal_os.Buddy.{
  mark_block, add_free_block, freed_page, release, free_pages, Buddy, free_head, free_tail,
  alloc_page_head, alloc_page_tail,
}
use bare_metal_os.Buddy.Mark.{mark_block-at}
use bare_metal_os.Buddy.InHand.{
  Outside, IsConsistent, Good-frame, position, mark_block_ne, head_apart, IsFree, InHand-empty,
  Block, InHand,
}
use bare_metal_os.Buddy.Place.{add_free_block-InHand}
use bare_metal_os.Buddy.Merge.{InHand-mark_block, merge-Held, merge-Grew, Held}

-- The block of an allocated head, as the frame array has it.
abbrev pub end_of : Buddy → ℕ → ℕ
end_of s idx = idx + pow2 (s.frames idx).order

module _ {s : Buddy} (idx : ℕ) (c : IsConsistent s) (inside : idx < s.total_page)
    (head : (s.frames idx).state ≡ alloc_page_head) where
  own-Block : Block s.frames s.total_page idx (s.frames idx).order alloc_page_tail
  own-Block = (c.good idx inside (inr (omega arith))).alloc_block head

  -- An allocated block can be taken in hand as it is.
  grab-InHand : InHand idx (end_of s idx) s
  grab-InHand = record {
    good = λ p pin out.
        let old = c.good p pin (inr (omega arith)) in
        Good-frame refl (λ h j l u. refl) (head_apart c idx (inr head) p pin (inr (omega arith)))
          old;
    listed = λ p k small.
        ground (
          arith,
          c.listed p k small,
          own-Block.tails p,
          position idx (pow2 (s.frames idx).order) p,
        );
  }

  marked_free : Buddy
  marked_free = record s {
    frames = mark_block idx (s.frames idx).order free_head free_tail s.frames;
  }

  grab-Held : Held idx (s.frames idx).order marked_free
  unfolding marked_free
  grab-Held = record {
    small = own-Block.small;
    aligned = own-Block.aligned;
    inside = own-Block.inside;
    in_hand =
        InHand-mark_block idx (s.frames idx).order free_head free_tail (omega arith) (omega arith)
          grab-InHand;
  }

-- A block in hand that is put into its free list leaves nothing in hand.
put-IsConsistent : (idx k : ℕ) (s : Buddy) → Held idx k s → IsConsistent (add_free_block idx k s)
put-IsConsistent idx k s h = InHand-empty (
    add_free_block-InHand {lo = idx} {hi = idx + pow2 k} {s = s} idx k (idx + pow2 k) (idx + pow2 k)
      (inl (refl, refl, refl)) (omega arith, omega arith, h.inside) h.small h.aligned h.in_hand)

release-IsConsistent :
    {s : Buddy} (idx : ℕ)
    → IsConsistent s
    → idx < s.total_page
    → (s.frames idx).state ≡ alloc_page_head
    → IsConsistent (release idx s)
unfolding release marked_free
release-IsConsistent {s} idx c inside head = put-IsConsistent _ _ _ (
    merge-Held (max_order + 1) idx (s.frames idx).order (marked_free idx c inside head)
      (grab-Held idx c inside head))

-- What passes the tests of `buddy_free_pages` is the address of an allocated head in the pool.
pub freed_page-some :
    (addr : ℕ) (s : Buddy) {idx : ℕ}
    → freed_page addr s ≡ some idx
    → (idx < s.total_page) × ((s.frames idx).state ≡ alloc_page_head)
unfolding freed_page
freed_page-some addr s h = ground arith

-- `buddy_free_pages` keeps the invariant on every branch.
pub free_pages-IsConsistent :
    (addr : ℕ) {s : Buddy} → IsConsistent s → IsConsistent (free_pages addr s)
unfolding free_pages
free_pages-IsConsistent addr {s} c = elim (Option-cases (freed_page addr s)) [
  | inl e ↦ rw (e, free_pages) c
  | inr (idx, e) ↦
      let f = freed_page-some addr s e in rw (e, free_pages) (release-IsConsistent idx c f.0 f.1)
]

-- What giving back the block at page `idx` does: its pages are free, free pages stay free, and of
-- the other pages none is written that was not free.
pub record Released (s s' : Buddy) (idx : ℕ) : Type 0 where
  pub now_free : (p : ℕ) → idx ≤ p → p < end_of s idx → IsFree (s'.frames p).state
  pub keep_free : (p : ℕ) → IsFree (s.frames p).state → IsFree (s'.frames p).state
  pub others :
      (p : ℕ)
      → Outside idx (end_of s idx) p
      → ¬ IsFree (s.frames p).state
      → s'.frames p ≡ s.frames p

put-IsFree :
    (idx k p : ℕ) (s : Buddy)
    → idx ≤ p
    → p < idx + pow2 k
    → IsFree ((add_free_block idx k s).frames p).state
unfolding add_free_block
put-IsFree idx k p s l u = ground (arith, mark_block-at idx k free_head free_tail s.frames p)

put_ne :
    (idx k p : ℕ) (s : Buddy)
    → Outside idx (idx + pow2 k) p
    → (add_free_block idx k s).frames p ≡ s.frames p
unfolding add_free_block
put_ne idx k p s out = mark_block_ne idx k free_head free_tail s.frames p out

-- What is free outside a block is free after the block is put in.
put_keeps :
    (idx k p : ℕ) (s : Buddy)
    → (Outside idx (idx + pow2 k) p → IsFree (s.frames p).state)
    → IsFree ((add_free_block idx k s).frames p).state
put_keeps idx k p s free = elim (dec_lt p idx) [
  | yes l ↦ rw (put_ne idx k p s (inl l)) (free (inl l))
  | no nl ↦ elim (dec_lt p (idx + pow2 k)) [
    | yes u ↦ put-IsFree idx k p s (omega arith) u
    | no nu ↦
        let out : Outside idx (idx + pow2 k) p = inr (omega arith) in
        rw (put_ne idx k p s out) (free out)
  ]
]

release-Released :
    {s : Buddy} (idx : ℕ)
    → IsConsistent s
    → idx < s.total_page
    → (s.frames idx).state ≡ alloc_page_head
    → Released s (release idx s) idx
unfolding release marked_free
release-Released {s} idx c inside head =
    let order = (s.frames idx).order in
    let m = marked_free idx c inside head in
    let grew = merge-Grew (max_order + 1) idx order m (grab-Held idx c inside head) in
    record {
      now_free = λ p l u. put-IsFree _ _ p _ (omega (arith, grew.front)) (omega (arith, grew.back));
      keep_free =
          λ p free. put_keeps _ _ p _ (λ out. rw (grew.same p out) (marked_keeps order p free));
      others = λ p out busy.
          let same = mark_block_ne idx order free_head free_tail s.frames p out in
          let out' = grew.others p out (rw same busy) in
          put_ne _ _ p _ out' ∙ grew.same p out' ∙ same;
    }
  where
    marked_keeps :
        (order p : ℕ)
        → IsFree (s.frames p).state
        → IsFree (mark_block idx order free_head free_tail s.frames p).state
    marked_keeps order p free =
        ground (arith, mark_block-at idx order free_head free_tail s.frames p)

-- The two branches of `buddy_free_pages`, by its own tests; Buddy.Heads says what they test.
pub free_pages_cases :
    (addr : ℕ) {s : Buddy}
    → IsConsistent s
    → ((freed_page addr s ≡ none) × (free_pages addr s ≡ s))
      ⊎ ((idx : ℕ) × (freed_page addr s ≡ some idx) × Released s (free_pages addr s) idx)
unfolding free_pages
free_pages_cases addr {s} c = elim (Option-cases (freed_page addr s)) [
  | inl e ↦ inl (e, rw (e, free_pages))
  | inr (idx, e) ↦
      let f = freed_page-some addr s e in
      inr (idx, e, rw (e, free_pages) (release-Released idx c f.0 f.1))
]
