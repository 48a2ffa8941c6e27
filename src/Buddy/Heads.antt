-- ===== src/Buddy/Heads.antt =====
-- `buddy_free_pages`: which addresses it takes, and what it does at them.
use bare_metal_os.Base.{
  ℕ, ◌+◌, ◌-◌, ◌/◌, ◌%◌, ◌^◌, ◌≤◌, ◌<◌, bit_and, ◌≡◌, refl, sym, ◌∙◌, ◌⊎◌, inl, inr, true, false,
  Option, none, some, arith, ltb, leb, ◌==◌,
}
use bare_metal_os.Base.Words.{add64, sub64}
use bare_metal_os.Base.Bits.{bit_and-mask}
use bare_metal_os.Config.{page_size}
use bare_metal_os.Buddy.{freed_page, free_pages, Buddy, alloc_page_head}
use bare_metal_os.Buddy.InHand.{IsConsistent}
use bare_metal_os.Buddy.Free.{free_pages_cases, Released}

-- A block is handed out at the address: it lies in the pool, at the start of a page, and the page
-- heads an allocated block.
pub record HeadAt (s : Buddy) (addr idx : ℕ) : Type 0 where
  pub ready : s.ready ≡ true
  pub not_null : 0 < addr
  pub above : s.mempool_start ≤ addr
  pub below : addr < (s.mempool_start + s.mempool_size) % 2 ^ 64
  pub aligned : addr % 4096 ≡ 0
  pub page : (addr - s.mempool_start) / 4096 ≡ idx
  pub inside : idx < s.total_page
  pub head : (s.frames idx).state ≡ alloc_page_head

page_mask : (addr : ℕ) → bit_and addr 4095 ≡ addr % 4096
page_mask addr = bit_and-mask 12 addr

offset :
    (addr : ℕ) (s : Buddy)
    → s.mempool_start ≤ addr
    → addr < add64 s.mempool_start s.mempool_size
    → sub64 addr s.mempool_start ≡ addr - s.mempool_start
offset addr s above below = omega arith

freed_page-HeadAt :
    (addr : ℕ) (s : Buddy) {idx : ℕ} → freed_page addr s ≡ some idx → HeadAt s addr idx
unfolding freed_page
freed_page-HeadAt addr s {idx} e =
    let above : s.mempool_start ≤ addr = ground arith in
    let below : addr < add64 s.mempool_start s.mempool_size = ground arith in
    let distance = offset addr s above below in
    record {
      ready = ground arith;
      not_null = ground arith;
      above = above;
      below = below;
      aligned = ground (arith, page_mask addr);
      page = ground (arith, distance);
      inside = ground arith;
      head = ground arith;
    }

HeadAt-freed_page :
    (addr : ℕ) (s : Buddy) {idx : ℕ} → HeadAt s addr idx → freed_page addr s ≡ some idx
unfolding freed_page
HeadAt-freed_page addr s {idx} h =
    let distance = offset addr s h.above h.below in
    let at : sub64 addr s.mempool_start / page_size ≡ idx = rw distance h.page in
    let tests : (addr == 0) ≡ false = ground (arith, h.not_null) in
    let low : ltb addr s.mempool_start ≡ false = ground (arith, h.above) in
    let high : leb (add64 s.mempool_start s.mempool_size) addr ≡ false = ground (arith, h.below) in
    let within : leb s.total_page idx ≡ false = ground (arith, h.inside) in
    rw (h.ready, tests, low, high, page_mask addr, h.aligned, at, within, h.head) refl

-- `buddy_free_pages` in a consistent state, on every branch: where no allocated block of the pool
-- starts at the address, or the buddy system is not set up, it changes nothing; where one does, it
-- gives that block back. The pages of the block are free then, free pages stay free, and of the
-- other pages none is written that was not free.
pub free_pages_lem :
    (addr : ℕ) {s : Buddy}
    → IsConsistent s
    → (((idx : ℕ) → ¬ HeadAt s addr idx) × (free_pages addr s ≡ s))
      ⊎ ((idx : ℕ) × HeadAt s addr idx × Released s (free_pages addr s) idx)
free_pages_lem addr {s} c = elim (free_pages_cases addr c) [
  | inl (e, same) ↦ inl (
    λ idx h.
        let both : ◌≡◌ {A = Option ℕ} none (some idx) = sym e ∙ HeadAt-freed_page addr s h in
        absurd (ground arith),
    same,
  )
  | inr (idx, e, released) ↦ inr (idx, freed_page-HeadAt addr s e, released)
]
