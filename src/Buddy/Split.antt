-- ===== src/Buddy/Split.antt =====
-- `buddy_alloc_pages` after the search: the split loop, and the block that is handed out.
use native.Mathlib.Decide.{dec_lt}
use bare_metal_os.Base.{
  ℕ, zero, suc, ◌+◌, ◌*◌, ◌%◌, ◌≤◌, ◌<◌, ◌≡◌, refl, ◌⊎◌, inl, inr, arith, ltb, Bool-cases,
}
use bare_metal_os.Base.Bits.{pow2, pow2_pos, pow2_mono, aligned_half}
use bare_metal_os.Config.{max_order}
use bare_metal_os.Buddy.{add_free_block, split_block, Buddy, free_head, free_tail}
use bare_metal_os.Buddy.Mark.{mark_block-at}
use bare_metal_os.Buddy.InHand.{mark_block_ne, IsFree, InHand}
use bare_metal_os.Buddy.Place.{add_free_block-InHand}

pub total-split_block :
    (current order idx : ℕ) (s : Buddy)
    → (split_block current order idx s).total_page ≡ s.total_page
unfolding split_block add_free_block
total-split_block zero order idx s = refl
total-split_block (suc c) order idx s =
    ground (arith, total-split_block c order idx (add_free_block (idx + pow2 c) c s))

-- The loop leaves in hand the front of the block, of the order asked for.
pub split_block-InHand :
    (current order idx : ℕ) (s : Buddy)
    → order ≤ current
    → current ≤ max_order
    → idx % pow2 current ≡ 0
    → idx + pow2 current ≤ s.total_page
    → InHand idx (idx + pow2 current) s
    → InHand idx (idx + pow2 order) (split_block current order idx s)
unfolding split_block
split_block-InHand zero order idx s le small aligned inside held =
    let e : order ≡ 0 = omega arith in rw e held
split_block-InHand (suc c) order idx s le small aligned inside held =
    let halves = aligned_half idx (pow2 c) (pow2_pos c) aligned in
    let added =
      add_free_block-InHand {lo = idx} {hi = idx + 2 * pow2 c} {s = s} (idx + pow2 c) c idx
        (idx + pow2 c) (inr (refl, refl, omega arith)) (omega arith, omega arith, inside)
        (omega arith) halves.1 held in
    elim (Bool-cases (ltb order (suc c))) [
      | inl t ↦ rw t (
          split_block-InHand c order idx (add_free_block (idx + pow2 c) c s) (ground arith)
            (omega arith) halves.0 (unfold add_free_block in omega arith) added)
      | inr t ↦ let e : order ≡ suc c = ground arith in rw (t, e) held
    ]

-- Nothing outside the block is written.
pub split_block_ne :
    (current order idx : ℕ) (s : Buddy) (p : ℕ)
    → (p < idx) ⊎ (idx + pow2 current ≤ p)
    → (split_block current order idx s).frames p ≡ s.frames p
unfolding split_block add_free_block
split_block_ne zero order idx s p off = refl
split_block_ne (suc c) order idx s p off = ground (
  arith,
  pow2_pos c,
  split_block_ne c order idx (add_free_block (idx + pow2 c) c s) p,
  mark_block_ne (idx + pow2 c) c free_head free_tail s.frames p,
)

-- What the loop splits off is free.
pub split_block-IsFree :
    (current order idx : ℕ) (s : Buddy) (p : ℕ)
    → idx + pow2 order ≤ p
    → p < idx + pow2 current
    → IsFree ((split_block current order idx s).frames p).state
unfolding split_block
split_block-IsFree zero order idx s p l u = absurd (omega (arith, pow2_pos order))
split_block-IsFree (suc c) order idx s p l u =
    let s' = add_free_block (idx + pow2 c) c s in
    elim (Bool-cases (ltb order (suc c))) [
      | inl t ↦ rw t (elim (dec_lt p (idx + pow2 c)) [
        | yes h ↦ split_block-IsFree c order idx s' p l h
        | no h ↦ rw (split_block_ne c order idx s' p (inr (omega arith))) (
            unfold add_free_block in
            ground (arith, mark_block-at (idx + pow2 c) c free_head free_tail s.frames p))
      ])
      | inr t ↦ absurd (omega (arith, pow2_mono (suc c) order (ground arith)))
    ]
