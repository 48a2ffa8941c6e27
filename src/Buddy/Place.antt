-- ===== src/Buddy/Place.antt =====
-- `add_free_block` puts a block from either end of the range in hand into its free list.
use bare_metal_os.Base.{
  ℕ, ◌+◌, ◌%◌, ◌≤◌, ◌<◌, ◌≡◌, ◌⊎◌, inl, inr, ◌&&◌, arith, ltb, leb, if◌then◌else◌, count,
}
use bare_metal_os.Base.Bits.{pow2, pow2_pos}
use bare_metal_os.Config.{max_order}
use bare_metal_os.Buddy.{mark_block, link, add_free_block, Frame, Buddy, free_head, free_tail}
use bare_metal_os.Buddy.Mark.{mark_block-at}
use bare_metal_os.Buddy.InHand.{
  free_count_at, Outside, Good-frame, position, Good-tail, Block-mark_block, mark_block_ne,
  mark_block_self, Good, InHand,
}

-- The block `[b, b + size)` is the front of the range, or its end; the rest is `[lo', hi')`.
abbrev pub AtEnd : (lo hi b size lo' hi' : ℕ) → Type 0
AtEnd lo hi b size lo' hi' =
    ((b ≡ lo) × (lo' ≡ lo + size) × (hi' ≡ hi)) ⊎ ((lo' ≡ lo) × (hi' ≡ b) × (b + size ≡ hi))

module _ {lo hi : ℕ} {s : Buddy} (b k lo' hi' : ℕ) (ends : AtEnd lo hi b (pow2 k) lo' hi')
    (within : (lo ≤ b) × (b + pow2 k ≤ hi) × (hi ≤ s.total_page)) (small : k ≤ max_order)
    (aligned : b % pow2 k ≡ 0) (held : InHand lo hi s) where
  marked : ℕ → Frame
  marked = mark_block b k free_head free_tail s.frames

  head-Good : Good marked s.total_page lo' b
  unfolding marked
  head-Good = record {
    free_block = rw (mark_block_self b k free_head free_tail s.frames) (λ st.
        Block-mark_block s.frames s.total_page b k free_head free_tail small aligned (omega arith));
    alloc_block = λ st. absurd (ground (arith, mark_block-at b k free_head free_tail s.frames b));
    chunk_page = λ st. absurd (ground (arith, mark_block-at b k free_head free_tail s.frames b));
    apart = λ st l. ground (arith, mark_block-at b k free_head free_tail s.frames b);
  }

  outer : (p : ℕ) → Outside lo' hi' p → (p < b) ⊎ (b + pow2 k ≤ p) → Outside lo hi p
  outer p out off = ground arith

  place-Good : (p : ℕ) → p < s.total_page → Outside lo' hi' p → Good marked s.total_page lo' p
  unfolding marked
  place-Good p inside out = elim (position b (pow2 k) p) [
    | inl e ↦ rw e head-Good
    | inr (inl (l, h)) ↦
        Good-tail (inl (ground (arith, mark_block-at b k free_head free_tail s.frames p)))
    | inr (inr off) ↦
        let old = held.good p inside (outer p out off) in
        Good-frame (mark_block_ne b k free_head free_tail s.frames p off)
          (λ h j l u.
            mark_block_ne b k free_head free_tail s.frames j
              (ground (arith, old.apart h, outer p out off)))
          (λ h l. ground (arith, old.apart h, outer p out off)) old
  ]

  place_listed :
      (p j : ℕ)
      → j ≤ max_order
      → count p (link b k s.free_area j)
        ≡ (if leb lo' p && ltb p hi' then 0 else free_count_at marked s.total_page p j)
  unfolding marked
  place_listed p j small' =
      ground (
        arith,
        pow2_pos k,
        held.listed p j small',
        mark_block-at b k free_head free_tail s.frames p,
      )

  pub add_free_block-InHand : InHand lo' hi' (add_free_block b k s)
  unfolding add_free_block marked
  add_free_block-InHand = record { good = place-Good; listed = place_listed }
