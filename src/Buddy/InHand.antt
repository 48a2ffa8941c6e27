-- ===== src/Buddy/InHand.antt =====
-- The invariant of the buddy system, with a range of pages in hand: those that an operation has
-- taken out of the free lists, or not yet put in. Between operations the range is empty.
use native.Mathlib.Decide.{dec_lt}
use bare_metal_os.Base.{
  ℕ, ◌+◌, ◌*◌, ◌%◌, ◌≤◌, ◌<◌, ◌≡◌, refl, ap, ◌∙◌, ◌⊎◌, inl, inr, ◌&&◌, arith, ltb, leb, ◌==◌,
  if◌then◌else◌, count,
}
use bare_metal_os.Base.Bits.{pow2, pow2_pos}
use bare_metal_os.Base.Words.{word_mod}
use bare_metal_os.Config.{page_size, max_order}
use bare_metal_os.Buddy.{
  same_state, mark_block, PageState, Frame, Buddy, free_head, free_tail, reserved, alloc_page_head,
  alloc_page_tail, alloc_chunk_pool,
}
use bare_metal_os.Buddy.Mark.{mark_block-at}

-- Page `p` heads a block of order `k` in the pool, and its tailing pages are marked so.
pub record Block (f : ℕ → Frame) (total p k : ℕ) (tail : PageState) : Type 0 where
  pub small : k ≤ max_order
  pub aligned : p % pow2 k ≡ 0
  pub inside : p + pow2 k ≤ total
  pub tails : (j : ℕ) → p < j → j < p + pow2 k → (f j).state ≡ tail

abbrev pub IsHead : PageState → Type 0
IsHead st = (st ≡ free_head) ⊎ (st ≡ alloc_page_head)

-- What the mark on page `p` promises; a block in front of `lo` ends there at the latest.
pub record Good (f : ℕ → Frame) (total lo p : ℕ) : Type 0 where
  pub free_block : (f p).state ≡ free_head → Block f total p (f p).order free_tail
  pub alloc_block : (f p).state ≡ alloc_page_head → Block f total p (f p).order alloc_page_tail
  pub chunk_page : (f p).state ≡ alloc_chunk_pool → (f p).order ≡ 0
  pub apart : IsHead (f p).state → p < lo → p + pow2 (f p).order ≤ lo

-- 1 where page `p` heads a free block of order `k`, else 0.
abbrev pub free_count_at : (ℕ → Frame) → ℕ → ℕ → ℕ → ℕ
free_count_at f total p k =
    if ltb p total && (same_state (f p).state free_head && ((f p).order == k)) then 1 else 0

abbrev pub Outside : ℕ → ℕ → ℕ → Type 0
Outside lo hi p = (p < lo) ⊎ (hi ≤ p)

-- `free_area[k]` links the heads of the free blocks of order `k`, each once, but for those in hand.
pub record InHand (lo hi : ℕ) (s : Buddy) : Type 0 where
  pub good : (p : ℕ) → p < s.total_page → Outside lo hi p → Good s.frames s.total_page lo p
  pub listed :
      (p k : ℕ)
      → k ≤ max_order
      → count p (s.free_area k)
        ≡ (if leb lo p && ltb p hi then 0 else free_count_at s.frames s.total_page p k)

-- The invariant between two operations: nothing is in hand.
abbrev pub IsConsistent : Buddy → Type 0
IsConsistent s = InHand 0 0 s

module _ {f g : ℕ → Frame} {total : ℕ} where
  -- A block whose pages are not written stays a block.
  pub Block-frame :
      {p k : ℕ} {tail : PageState}
      → ((j : ℕ) → p < j → j < p + pow2 k → (g j).state ≡ (f j).state)
      → Block f total p k tail
      → Block g total p k tail
  Block-frame same b = record {
    small = b.small;
    aligned = b.aligned;
    inside = b.inside;
    tails = λ j lo hi. same j lo hi ∙ b.tails j lo hi;
  }

  -- A page keeps its promise if neither it nor its block is written, and `lo` does not cut the block.
  pub Good-frame :
      {lo lo' p : ℕ}
      → g p ≡ f p
      → (IsHead (f p).state → (j : ℕ) → p < j → j < p + pow2 (f p).order → g j ≡ f j)
      → (IsHead (f p).state → p < lo' → p + pow2 (f p).order ≤ lo')
      → Good f total lo p
      → Good g total lo' p
  Good-frame {p} e same ends old = record {
    free_block =
        rw e
          λ st. Block-frame (λ j l h. ap (λ r. r.state) (same (inl st) j l h)) (old.free_block st);
    alloc_block =
        rw e
          λ st. Block-frame (λ j l h. ap (λ r. r.state) (same (inr st) j l h)) (old.alloc_block st);
    chunk_page = rw e old.chunk_page;
    apart = rw e ends;
  }

-- Where a page lies to a block.
pub position : (b size p : ℕ) → (p ≡ b) ⊎ ((b < p) × (p < b + size)) ⊎ ((p < b) ⊎ (b + size ≤ p))
position b size p = elim (dec_lt p b) [
  | yes h ↦ inr (inr (inl h))
  | no h ↦ elim (dec_lt b p) [
    | no h' ↦ inl (omega arith)
    | yes h' ↦ elim (dec_lt p (b + size)) [
      | yes u ↦ inr (inl (h', u))
      | no u ↦ inr (inr (inr (omega arith)))
    ]
  ]
]

-- A page that is reserved, or marked as the tail of a block, promises nothing.
pub Good-tail :
    {f : ℕ → Frame} {total lo p : ℕ}
    → ((f p).state ≡ free_tail) ⊎ ((f p).state ≡ alloc_page_tail) ⊎ ((f p).state ≡ reserved)
    → Good f total lo p
Good-tail h = record {
  free_block = λ e. absurd (ground arith);
  alloc_block = λ e. absurd (ground arith);
  chunk_page = λ e. absurd (ground arith);
  apart = λ e. absurd (ground arith);
}

-- Marking a block whose place fits makes it one.
pub Block-mark_block :
    (f : ℕ → Frame) (total p k : ℕ) (head tail : PageState)
    → k ≤ max_order
    → p % pow2 k ≡ 0
    → p + pow2 k ≤ total
    → Block (mark_block p k head tail f) total p k tail
Block-mark_block f total p k head tail small aligned inside = record {
  small = small;
  aligned = aligned;
  inside = inside;
  tails = λ j lo hi. ground (arith, mark_block-at p k head tail f j);
}

-- The pages that a mark on a block leaves alone.
pub mark_block_ne :
    (idx k : ℕ) (head tail : PageState) (f : ℕ → Frame) (p : ℕ)
    → (p < idx) ⊎ (idx + pow2 k ≤ p)
    → mark_block idx k head tail f p ≡ f p
mark_block_ne idx k head tail f p h = ground (arith, pow2_pos k, mark_block-at idx k head tail f p)

pub mark_block_self :
    (idx k : ℕ) (head tail : PageState) (f : ℕ → Frame)
    → mark_block idx k head tail f idx ≡ record (f idx) { order = k; state = head }
mark_block_self idx k head tail f = ground (arith, mark_block-at idx k head tail f idx)

-- The block of a head that lies in front of another head ends there at the latest.
module _ {lo hi : ℕ} {s : Buddy} (held : InHand lo hi s) (b : ℕ)
    (head : IsHead (s.frames b).state) where
  not_covered :
      (p m : ℕ) (tail : PageState)
      → (tail ≡ free_tail) ⊎ (tail ≡ alloc_page_tail)
      → Block s.frames s.total_page p m tail
      → p < b
      → p + pow2 m ≤ b
  not_covered p m tail is_tail blk lt = elim (dec_lt b (p + pow2 m)) [
    | yes h ↦ absurd (ground (arith, blk.tails b lt h))
    | no h ↦ omega arith
  ]

  pub head_apart :
      (p : ℕ)
      → p < s.total_page
      → Outside lo hi p
      → IsHead (s.frames p).state
      → p < b
      → p + pow2 (s.frames p).order ≤ b
  head_apart p pin out (inl e) =
      not_covered p (s.frames p).order free_tail (inl refl) ((held.good p pin out).free_block e)
  head_apart p pin out (inr e) =
      not_covered p (s.frames p).order alloc_page_tail (inr refl)
        ((held.good p pin out).alloc_block e)

abbrev pub IsFree : PageState → Type 0
IsFree st = (st ≡ free_head) ⊎ (st ≡ free_tail)

-- With nothing in hand the range does not matter.
pub InHand-empty : {x : ℕ} {s : Buddy} → InHand x x s → IsConsistent s
InHand-empty {x} held = record {
  good = λ p pin out.
      Good-frame refl (λ h j l u. refl) (λ h l. absurd (omega arith))
        (held.good p pin (ground arith));
  listed = λ p k small. ground (arith, held.listed p k small);
}

-- The pool is page-aligned, holds its pages, does not wrap round and does not start at NULL.
pub record IsPool (s : Buddy) : Type 0 where
  pub not_null : 0 < s.mempool_start
  pub aligned : s.mempool_start % page_size ≡ 0
  pub holds : s.total_page * page_size ≤ s.mempool_size
  pub no_wrap : s.mempool_start + s.mempool_size < word_mod
