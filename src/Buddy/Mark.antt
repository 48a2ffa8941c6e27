-- ===== src/Buddy/Mark.antt =====
-- What `mark_block` writes, page by page.
use bare_metal_os.Base.{
  ℕ, zero, suc, ◌+◌, ◌-◌, ◌≡◌, ◌&&◌, arith, ltb, leb, ◌==◌, if◌then◌else◌, update,
}
use bare_metal_os.Base.Bits.{pow2, pow2_pos}
use bare_metal_os.Base.Words.{minus_one}
use bare_metal_os.Buddy.{mark_tails, mark_block, PageState, Frame}

mark_tails-at :
    (n j : ℕ) (tail : PageState) (f : ℕ → Frame) (p : ℕ)
    → mark_tails n j tail f p
      ≡ (if leb j p && ltb p (j + n) then record (f p) { order = minus_one; state = tail } else f p)
unfolding mark_tails
mark_tails-at zero j tail f p = ground arith
mark_tails-at (suc n) j tail f p = ground (
  arith,
  mark_tails-at n (j + 1) tail (update f j (record (f j) { order = minus_one; state = tail })) p,
)

-- The head page, the tailing pages of the block, and no other page.
pub mark_block-at :
    (idx k : ℕ) (head tail : PageState) (f : ℕ → Frame) (p : ℕ)
    → mark_block idx k head tail f p ≡ (
        if p == idx
        then record (f p) { order = k; state = head }
        else if ltb idx p && ltb p (idx + pow2 k)
        then record (f p) { order = minus_one; state = tail }
        else f p)
unfolding mark_block
mark_block-at idx k head tail f p = ground (
  arith,
  pow2_pos k,
  mark_tails-at (pow2 k - 1) (idx + 1) tail
      (update f idx (record (f idx) { order = k; state = head })) p,
)
