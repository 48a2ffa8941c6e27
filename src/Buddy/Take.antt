-- ===== src/Buddy/Take.antt =====
-- `remove_free_block` takes a free block into the range in hand.
use bare_metal_os.Base.{
  ℕ, ◌+◌, ◌≤◌, ◌<◌, ◌≡◌, ◌≢◌, ◌⊎◌, inl, ◌&&◌, arith, ltb, leb, if◌then◌else◌, update, count,
  count-erase,
}
use bare_metal_os.Base.Bits.{pow2, pow2_pos}
use bare_metal_os.Config.{max_order}
use bare_metal_os.Buddy.{
  unlink, remove_free_block, Frame, Buddy, free_head, free_tail, alloc_page_head,
}
use bare_metal_os.Buddy.InHand.{free_count_at, Outside, Good-frame, head_apart, Block, Good, InHand}

-- The block `[b, b + size)` is all that is in hand, or borders on what was: `[lo', hi')` is both.
abbrev pub Grown : (lo hi b size lo' hi' : ℕ) → Type 0
Grown lo hi b size lo' hi' =
    ((lo ≡ hi) × (lo' ≡ b) × (hi' ≡ b + size))
    ⊎ ((b ≡ hi) × (lo' ≡ lo) × (hi' ≡ b + size))
    ⊎ ((b + size ≡ lo) × (lo' ≡ b) × (hi' ≡ hi))

module _ {lo hi : ℕ} {s : Buddy} (b k lo' hi' : ℕ) (grown : Grown lo hi b (pow2 k) lo' hi')
    (order : lo ≤ hi) (held : InHand lo hi s) (inside : b < s.total_page)
    (head : (s.frames b).state ≡ free_head) (is_k : (s.frames b).order ≡ k) where
  outside : Outside lo hi b
  outside = ground (arith, pow2_pos k)

  block : Block s.frames s.total_page b k free_tail
  block = rw is_k at (held.good b inside outside).free_block head

  outer : (p : ℕ) → Outside lo' hi' p → Outside lo hi p × (b ≢ p)
  outer p out = (ground (arith, pow2_pos k), ground (arith, pow2_pos k))

  taken : ℕ → Frame
  taken = update s.frames b (record (s.frames b) { state = alloc_page_head })

  take-Good : (p : ℕ) → p < s.total_page → Outside lo' hi' p → Good taken s.total_page lo' p
  unfolding taken
  take-Good p pin out =
      let old = held.good p pin (outer p out).0 in
      Good-frame (ground (arith, outer p out))
        (λ h j l u. ground (arith, head_apart held b (inl head) p pin (outer p out).0 h))
        (λ h l. ground (arith, head_apart held b (inl head) p pin (outer p out).0 h, old.apart h))
        old

  take_listed :
      (p j : ℕ)
      → j ≤ max_order
      → count p (unlink b s.free_area j)
        ≡ (if leb lo' p && ltb p hi' then 0 else free_count_at taken s.total_page p j)
  unfolding taken
  take_listed p j small =
      ground
        (arith, pow2_pos k, held.listed p j small, count-erase b p (s.free_area j), block.tails p)

  pub remove_free_block-InHand : InHand lo' hi' (remove_free_block b s)
  unfolding remove_free_block taken
  remove_free_block-InHand = record { good = take-Good; listed = take_listed }
