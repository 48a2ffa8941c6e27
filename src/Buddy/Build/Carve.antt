-- ===== src/Buddy/Build/Carve.antt =====
-- `buddy_init`: a run of free pages is broken into blocks.
use bare_metal_os.Base.{
  ℕ, zero, suc, ◌+◌, ◌-◌, ◌%◌, ◌≤◌, ◌<◌, bit_and, ◌≡◌, refl, ◌∙◌, inl, inr, true, some, arith,
  Bool-cases,
}
use bare_metal_os.Base.Bits.{pow2, pow2_pos, bit_and-mask}
use bare_metal_os.Config.{max_order}
use bare_metal_os.Buddy.{add_free_block, Buddy, free_head, free_tail}
use bare_metal_os.Buddy.Mark.{mark_block-at}
use bare_metal_os.Buddy.InHand.{Outside, IsFree, InHand}
use bare_metal_os.Buddy.Place.{add_free_block-InHand}
use bare_metal_os.Buddy.Build.{fits, pick_order, carve}

-- An order that the loop may take at page `idx` with `n` pages free.
record Fits (idx n o : ℕ) : Type 0 where
  small : o ≤ max_order
  aligned : idx % pow2 o ≡ 0
  room : pow2 o ≤ n

fits-Fits : (idx n o : ℕ) → o ≤ max_order → fits idx n o ≡ true → Fits idx n o
fits-Fits idx n o small t =
    let mask = bit_and-mask o idx in
    record { small = small; aligned = ground (arith, mask); room = ground arith }

-- Some order always fits: a page is a block of order 0.
pick_order-some :
    (k idx n : ℕ) → k ≤ max_order → 0 < n → (o : ℕ) × (pick_order k idx n ≡ some o) × Fits idx n o
unfolding pick_order
pick_order-some zero idx n small pos =
    let mask : bit_and idx 0 ≡ idx % 1 = bit_and-mask 0 idx in
    let t : fits idx n 0 ≡ true = ground (arith, mask) in
    (0, rw t, fits-Fits idx n 0 (omega arith) t)
pick_order-some (suc k) idx n small pos = elim (Bool-cases (fits idx n (suc k))) [
  | inl t ↦ (suc k, rw t, fits-Fits idx n (suc k) small t)
  | inr t ↦ let (o, e, f) = pick_order-some k idx n (omega arith) pos in (o, rw t e, f)
]

-- The run `[idx, idx + n)` is in blocks, and the front of the pages in hand has moved behind it.
pub record Carved (idx n hi : ℕ) (s : Buddy) (idx' : ℕ) (s' : Buddy) : Type 0 where
  pub front : idx' ≡ idx + n
  pub in_hand : InHand idx' hi s'
  pub total : s'.total_page ≡ s.total_page
  pub free : (p : ℕ) → idx ≤ p → p < idx + n → IsFree (s'.frames p).state
  pub same : (p : ℕ) → Outside idx (idx + n) p → s'.frames p ≡ s.frames p

module _ {idx n o hi : ℕ} {s : Buddy} (f : Fits idx n o) (room : idx + n ≤ hi)
    (inside : hi ≤ s.total_page) (held : InHand idx hi s) where
  added : InHand (idx + pow2 o) hi (add_free_block idx o s)
  added =
      add_free_block-InHand {lo = idx} {hi = hi} {s = s} idx o (idx + pow2 o) hi
        (inl (refl, refl, refl)) (omega arith, omega (arith, f.room), inside) f.small f.aligned held

  Carved-step :
      {idx' : ℕ} {s' : Buddy}
      → Carved (idx + pow2 o) (n - pow2 o) hi (add_free_block idx o s) idx' s'
      → Carved idx n hi s idx' s'
  unfolding add_free_block
  Carved-step c = record {
    front = omega (arith, c.front, f.room);
    in_hand = c.in_hand;
    total = c.total;
    free = λ p l u.
        ground
          (arith, f.room, c.free p, c.same p, mark_block-at idx o free_head free_tail s.frames p);
    same = λ p out.
        ground
          (arith, f.room, pow2_pos o, c.same p, mark_block-at idx o free_head free_tail s.frames p);
  }

carve-step :
    (fuel idx n o : ℕ) (s : Buddy)
    → pick_order max_order idx (suc n) ≡ some o
    → carve (suc fuel) idx (suc n) s
      ≡ carve fuel (idx + pow2 o) (suc n - pow2 o) (add_free_block idx o s)
unfolding carve
carve-step fuel idx n o s e = rw (e, carve)

-- With as much fuel as pages the loop ends.
pub carve-Carved :
    (fuel idx n hi : ℕ) (s : Buddy)
    → n ≤ fuel
    → idx + n ≤ hi
    → hi ≤ s.total_page
    → InHand idx hi s
    → (idx' : ℕ) × (s' : Buddy) × (carve fuel idx n s ≡ some (idx', s')) × Carved idx n hi s idx' s'
unfolding carve
carve-Carved fuel idx zero hi s enough room inside held = (
  idx,
  s,
  refl,
  record {
    front = omega arith;
    in_hand = held;
    total = refl;
    free = λ p l u. absurd (omega arith);
    same = λ p out. refl;
  },
)
carve-Carved zero idx (suc n) hi s enough room inside held = absurd (omega arith)
carve-Carved (suc fuel) idx (suc n) hi s enough room inside held =
    let (o, e, f) = pick_order-some max_order idx (suc n) (omega arith) (omega arith) in
    let (idx', s', e', c) =
      carve-Carved fuel (idx + pow2 o) (suc n - pow2 o) hi (add_free_block idx o s)
        (omega (arith, pow2_pos o)) (omega (arith, f.room)) (unfold add_free_block in inside)
        (added f room inside held) in
    (idx', s', carve-step fuel idx n o s e ∙ e', Carved-step f room inside held c)
