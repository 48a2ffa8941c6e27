-- ===== src/Buddy/HandOut.antt =====
-- A block in hand that is marked as allocated leaves nothing in hand.
use bare_metal_os.Base.{
  ℕ, ◌+◌, ◌%◌, ◌≤◌, ◌<◌, ◌≡◌, ◌⊎◌, inl, inr, ◌&&◌, arith, ltb, leb, ◌==◌, if◌then◌else◌, count,
}
use bare_metal_os.Base.Bits.{pow2, pow2_pos}
use bare_metal_os.Base.Words.{minus_one}
use bare_metal_os.Config.{max_order}
use bare_metal_os.Buddy.{hand_out, Frame, Buddy, alloc_page_head, alloc_page_tail}
use bare_metal_os.Buddy.Mark.{mark_block-at}
use bare_metal_os.Buddy.InHand.{
  free_count_at, Outside, IsConsistent, Good-frame, position, Good-tail, Good, InHand,
}

module _ {s : Buddy} (b k : ℕ) (small : k ≤ max_order) (aligned : b % pow2 k ≡ 0)
    (inside : b + pow2 k ≤ s.total_page) (held : InHand b (b + pow2 k) s) where
  -- The frames afterwards.
  given : ℕ → Frame
  given = (hand_out b k s).frames

  given-at :
      (p : ℕ)
      → given p ≡ (
          if p == b
          then record (s.frames p) { order = k; state = alloc_page_head; cow_ref_count = 1 }
          else if ltb b p && ltb p (b + pow2 k)
          then record (s.frames p) { order = minus_one; state = alloc_page_tail }
          else s.frames p)
  unfolding hand_out given
  given-at p = ground (arith, mark_block-at b k alloc_page_head alloc_page_tail s.frames p)

  given_head : Good given s.total_page 0 b
  given_head =
      let e : (given b).order ≡ k = ground (arith, given-at b) in
      record {
        free_block = λ st. absurd (ground (arith, given-at b));
        alloc_block = λ st. rw e (record {
          small = small;
          aligned = aligned;
          inside = inside;
          tails = λ j l h. ground (arith, given-at j);
        });
        chunk_page = λ st. absurd (ground (arith, given-at b));
        apart = λ st l. absurd (omega arith);
      }

  given_ne : (p : ℕ) → (p < b) ⊎ (b + pow2 k ≤ p) → given p ≡ s.frames p
  given_ne p off = ground (arith, pow2_pos k, given-at p)

  given-Good : (p : ℕ) → p < s.total_page → Outside 0 0 p → Good given s.total_page 0 p
  given-Good p pin out = elim (position b (pow2 k) p) [
    | inl e ↦ rw e given_head
    | inr (inl (l, h)) ↦ Good-tail (inr (inl (ground (arith, given-at p))))
    | inr (inr off) ↦
        let old = held.good p pin off in
        Good-frame (given_ne p off) (λ h j l u. given_ne j (ground (arith, old.apart h)))
          (λ h l. absurd (omega arith)) old
  ]

  given_listed :
      (p j : ℕ)
      → j ≤ max_order
      → count p (s.free_area j)
        ≡ (if leb 0 p && ltb p 0 then 0 else free_count_at given s.total_page p j)
  given_listed p j small' = ground (arith, pow2_pos k, given-at p, held.listed p j small')

  pub hand_out-at :
      (p : ℕ)
      → (hand_out b k s).frames p ≡ (
          if p == b
          then record (s.frames p) { order = k; state = alloc_page_head; cow_ref_count = 1 }
          else if ltb b p && ltb p (b + pow2 k)
          then record (s.frames p) { order = minus_one; state = alloc_page_tail }
          else s.frames p)
  unfolding given
  hand_out-at p = given-at p

  pub hand_out-IsConsistent : IsConsistent (hand_out b k s)
  unfolding hand_out given
  hand_out-IsConsistent = record { good = given-Good; listed = given_listed }
