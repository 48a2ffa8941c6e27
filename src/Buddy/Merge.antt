-- ===== src/Buddy/Merge.antt =====
-- `buddy_free_pages` after its tests: the merge loop.
use native.Mathlib.Decide.{ℕ_discrete}
use native.Mathlib.Nat.{mul-mod_left}
use mathlib.Core.Path.{subst}
use bare_metal_os.Base.{
  ℕ, zero, suc, ◌+◌, ◌-◌, ◌*◌, ◌/◌, ◌%◌, ◌≤◌, ◌<◌, bit_xor, min, ◌≡◌, refl, ap, ◌∙◌, ◌≢◌, ◌⊎◌, inl,
  inr, true, arith, Bool-cases,
}
use bare_metal_os.Base.Bits.{pow2, pow2_pos, div-mul_of_mod, bit_xor-pow2}
use bare_metal_os.Config.{max_order}
use bare_metal_os.Buddy.{
  mark_block, remove_free_block, can_merge, join, merge, PageState, Buddy, free_head, free_tail,
}
use bare_metal_os.Buddy.Mark.{mark_block-at}
use bare_metal_os.Buddy.InHand.{Outside, Good-frame, position, mark_block_ne, IsFree, Block, InHand}
use bare_metal_os.Buddy.Take.{Grown, remove_free_block-InHand}

-- Marks within the range in hand change nothing of the invariant.
pub InHand-mark_block :
    {lo hi : ℕ} {s : Buddy} (b k : ℕ) (head tail : PageState)
    → lo ≤ b
    → b + pow2 k ≤ hi
    → InHand lo hi s
    → InHand lo hi (record s { frames = mark_block b k head tail s.frames })
InHand-mark_block {lo} {hi} {s} b k head tail le ge held = record {
  good = λ p pin out.
      let old = held.good p pin out in
      Good-frame (mark_block_ne b k head tail s.frames p (ground arith))
        (λ h j l u. mark_block_ne b k head tail s.frames j (ground (arith, old.apart h))) old.apart
        old;
  listed = λ p j small.
      ground (arith, pow2_pos k, held.listed p j small, mark_block-at b k head tail s.frames p);
}

-- The buddy of the block of order `k` at `idx` is the other half of an aligned block.
abbrev pub OtherHalf : (b idx d : ℕ) → Type 0
OtherHalf b idx d = ((b ≡ idx + d) ⊎ (b + d ≡ idx)) × (min b idx % (2 * d) ≡ 0)

half_cases : (q d : ℕ) → 0 < d → OtherHalf ((q / 2 * 2 + (1 - q % 2)) * d) (q * d) d
half_cases q d pos = elim (ℕ_discrete (q % 2) 0) [
  | yes e ↦
      let even' : q ≡ q / 2 * 2 = omega arith in
      rw e (
        inl (omega (arith, ap (λ t. t * d) even')),
        (ap (λ t. t % (2 * d)) (omega (arith, ap (λ t. t * d) even'))
            ∙ mul-mod_left (q / 2) (2 * d)),
      )
  | no e ↦
      let one : q % 2 ≡ 1 = omega arith in
      let odd : q ≡ q / 2 * 2 + 1 = omega arith in
      rw one (
        inr (omega (arith, ap (λ t. t * d) odd)),
        (ap (λ t. t % (2 * d)) (omega (arith, ap (λ t. t * d) odd)) ∙ mul-mod_left (q / 2) (2 * d)),
      )
]

pub buddy_of : (idx k : ℕ) → idx % pow2 k ≡ 0 → OtherHalf (bit_xor idx (pow2 k)) idx (pow2 k)
buddy_of idx k aligned =
    let e : idx / pow2 k * pow2 k ≡ idx = div-mul_of_mod idx (pow2 k) aligned in
    subst (λ t. OtherHalf (bit_xor t (pow2 k)) t (pow2 k)) e
      (rw (bit_xor-pow2 k (idx / pow2 k)) (half_cases (idx / pow2 k) (pow2 k) (pow2_pos k)))

pub total-merge : (n idx k : ℕ) (s : Buddy) → (merge n idx k s).2.total_page ≡ s.total_page
unfolding merge join remove_free_block
total-merge zero idx k s = refl
total-merge (suc n) idx k s =
    ground (arith, total-merge n (min (bit_xor idx (pow2 k)) idx) (k + 1) (join idx k s))

-- What the loop holds: a block in hand, of an order that fits, in the pool.
pub record Held (idx k : ℕ) (s : Buddy) : Type 0 where
  pub small : k ≤ max_order
  pub aligned : idx % pow2 k ≡ 0
  pub inside : idx + pow2 k ≤ s.total_page
  pub in_hand : InHand idx (idx + pow2 k) s

module _ (b idx d : ℕ) (half : OtherHalf b idx d) where
  join-Grown : Grown idx (idx + d) b d (min b idx) (min b idx + 2 * d)
  join-Grown = elim half.0 [
    | inl e ↦ inr (inl (omega arith, omega arith, omega arith))
    | inr e ↦ inr (inr (omega arith, omega arith, omega arith))
  ]

  join_inside : (n : ℕ) → b + d ≤ n → idx + d ≤ n → min b idx + 2 * d ≤ n
  join_inside n l r = elim half.0 [ inl e ↦ omega arith | inr e ↦ omega arith ]

  join_back : idx + d ≤ min b idx + 2 * d
  join_back = elim half.0 [ inl e ↦ omega arith | inr e ↦ omega arith ]

  -- The pages of both halves are those of the whole.
  join_both :
      (p : ℕ)
      → Outside idx (idx + d) p
      → (p < b) ⊎ (b + d ≤ p)
      → Outside (min b idx) (min b idx + 2 * d) p
  join_both p out off = ground arith

  join_buddy : (p : ℕ) → Outside (min b idx) (min b idx + 2 * d) p → (p < b) ⊎ (b + d ≤ p)
  join_buddy p out = ground arith

  join-Outside : 0 < d → Outside idx (idx + d) b
  join-Outside pos = elim half.0 [ inl e ↦ inr (omega arith) | inr e ↦ inl (omega arith) ]

-- What the tests of the loop say of the buddy.
record Mergeable (b k : ℕ) (s : Buddy) : Type 0 where
  below : k < max_order
  in_pool : b < s.total_page
  head : (s.frames b).state ≡ free_head
  is_k : (s.frames b).order ≡ k

can_merge-Mergeable :
    (idx k : ℕ) (s : Buddy) → can_merge idx k s ≡ true → Mergeable (bit_xor idx (pow2 k)) k s
can_merge-Mergeable idx k s t = ground arith

join-Held :
    (idx k : ℕ) (s : Buddy)
    → Held idx k s
    → can_merge idx k s ≡ true
    → Held (min (bit_xor idx (pow2 k)) idx) (k + 1) (join idx k s)
unfolding join remove_free_block
join-Held idx k s h t =
    let b : ℕ = bit_xor idx (pow2 k) in
    let d : ℕ = pow2 k in
    let m : ℕ = min b idx in
    let may = can_merge-Mergeable idx k s t in
    let half : OtherHalf b idx d = buddy_of idx k h.aligned in
    let grown : Grown idx (idx + d) b d m (m + 2 * d) = join-Grown b idx d half in
    let buddy_block : Block s.frames s.total_page b k free_tail = rw may.is_k at (
      (h.in_hand.good b may.in_pool (join-Outside b idx d half (pow2_pos k))).free_block
        may.head) in
    let taken : InHand m (m + 2 * d) (remove_free_block b s) =
      remove_free_block-InHand b k m (m + 2 * d) grown (omega arith) h.in_hand may.in_pool may.head
        may.is_k in
    let next : k + 1 ≡ suc k = omega arith in
    rw next (record {
      small = omega (arith, may.below);
      aligned = half.1;
      inside = join_inside b idx d half s.total_page buddy_block.inside h.inside;
      in_hand = InHand-mark_block m (suc k) free_head free_tail (omega arith) (omega arith) taken;
    })

-- The loop keeps what it holds.
pub merge-Held :
    (n idx k : ℕ) (s : Buddy)
    → Held idx k s
    → let (idx', k', s') = merge n idx k s in Held idx' k' s'
unfolding merge
merge-Held zero idx k s h = h
merge-Held (suc n) idx k s h = elim (Bool-cases (can_merge idx k s)) [
  | inl t ↦ rw (t, merge) (merge-Held n _ _ _ (join-Held idx k s h t))
  | inr t ↦ rw (t, merge) h
]

-- From the block in hand in `s` to that in `s'`: no page leaves it, no page that is not free is
-- taken in, and nothing outside it is written.
pub record Grew (idx k : ℕ) (s : Buddy) (idx' k' : ℕ) (s' : Buddy) : Type 0 where
  pub front : idx' ≤ idx
  pub back : idx + pow2 k ≤ idx' + pow2 k'
  pub others :
      (p : ℕ)
      → Outside idx (idx + pow2 k) p
      → ¬ IsFree (s.frames p).state
      → Outside idx' (idx' + pow2 k') p
  pub same : (p : ℕ) → Outside idx' (idx' + pow2 k') p → s'.frames p ≡ s.frames p

Grew-outer :
    {idx k idx' k' : ℕ} {s s' : Buddy}
    → Grew idx k s idx' k' s'
    → (p : ℕ) → Outside idx' (idx' + pow2 k') p
    → Outside idx (idx + pow2 k) p
Grew-outer g p out = ground (arith, g.front, g.back)

Grew-trans :
    {i k i' k' i'' k'' : ℕ} {s s' s'' : Buddy}
    → Grew i k s i' k' s'
    → Grew i' k' s' i'' k'' s''
    → Grew i k s i'' k'' s''
Grew-trans g h = record {
  front = omega (arith, g.front, h.front);
  back = omega (arith, g.back, h.back);
  others =
      λ p out busy. let out' = g.others p out busy in h.others p out' (rw (g.same p out') busy);
  same = λ p out. h.same p out ∙ g.same p (Grew-outer h p out);
}

off_buddy : (b d p : ℕ) → (p ≢ b) → (b < p → p < b + d → ⊥) → (p < b) ⊎ (b + d ≤ p)
off_buddy b d p ne no_tail = elim (position b d p) [
  | inl e ↦ absurd (ne e)
  | inr (inl (l, u)) ↦ absurd (no_tail l u)
  | inr (inr off) ↦ off
]

join-Grew :
    (idx k : ℕ) (s : Buddy)
    → Held idx k s
    → can_merge idx k s ≡ true
    → Grew idx k s (min (bit_xor idx (pow2 k)) idx) (k + 1) (join idx k s)
unfolding join remove_free_block
join-Grew idx k s h t =
    let b : ℕ = bit_xor idx (pow2 k) in
    let d : ℕ = pow2 k in
    let m : ℕ = min b idx in
    let may = can_merge-Mergeable idx k s t in
    let half : OtherHalf b idx d = buddy_of idx k h.aligned in
    let buddy_block : Block s.frames s.total_page b k free_tail = rw may.is_k at (
      (h.in_hand.good b may.in_pool (join-Outside b idx d half (pow2_pos k))).free_block
        may.head) in
    let next : k + 1 ≡ suc k = omega arith in
    rw next (record {
      front = omega arith;
      back = join_back b idx d half;
      others = λ p out busy.
          let off =
            off_buddy b d p (λ e. busy (inl (rw e may.head)))
              (λ l u. busy (inr (buddy_block.tails p l u))) in
          join_both b idx d half p out off;
      same = λ p out.
          mark_block_ne m (suc k) free_head free_tail (remove_free_block b s).frames p out
          ∙ ground (arith, join_buddy b idx d half p out, pow2_pos k);
    })

pub merge-Grew :
    (n idx k : ℕ) (s : Buddy)
    → Held idx k s
    → let (idx', k', s') = merge n idx k s in Grew idx k s idx' k' s'
unfolding merge
merge-Grew zero idx k s h = record {
  front = omega arith;
  back = omega arith;
  others = λ p out busy. out;
  same = λ p out. refl;
}
merge-Grew (suc n) idx k s h = elim (Bool-cases (can_merge idx k s)) [
  | inl t ↦
      rw (t, merge)
        (Grew-trans (join-Grew idx k s h t) (
          merge-Grew n (min (bit_xor idx (pow2 k)) idx) (k + 1) (join idx k s)
            (join-Held idx k s h t)))
  | inr t ↦
      rw (t, merge)
        (record {
          front = omega arith;
          back = omega arith;
          others = λ p out busy. out;
          same = λ p out. refl;
        })
]
