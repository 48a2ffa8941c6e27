-- ===== src/Allocator/Sizes.antt =====
-- Rounding a request up: to an order of pages, and to a chunk pool.
use native.Mathlib.Decide.{dec_lt, ℕ_discrete}
use mathlib.Core.Path.{subst}
use bare_metal_os.Base.{
  ℕ, zero, suc, ◌+◌, ◌*◌, ◌%◌, ◌≤◌, ◌<◌, ◌≡◌, ◌⊎◌, inl, inr, true, false, Option, none, some, arith,
  ltb, leb, Bool-cases, Option-cases,
}
use bare_metal_os.Base.Bits.{pow2, pow2_mono}
use bare_metal_os.Base.Words.{word_mod}
use bare_metal_os.Allocator.{
  pool_count, roundup_loop, roundup_order, find_pool, find_pool_index, Allocator,
}

-- `r` is the least order whose block holds `pages` pages.
pub record Least (pages r : ℕ) : Type 0 where
  pub holds : pages ≤ pow2 r
  pub least : (k : ℕ) → k < r → pow2 k < pages

roundup_loop-step :
    (fuel order pages : ℕ)
    → order < 63
    → pow2 order < pages
    → roundup_loop (suc fuel) (pow2 order) order pages
      ≡ roundup_loop fuel (pow2 (suc order)) (suc order) pages
unfolding roundup_loop
roundup_loop-step fuel order pages small lt =
    let t : ltb (pow2 order) pages ≡ true = ground arith in
    let n : pow2 order * 2 % word_mod ≡ 2 * pow2 order =
      omega (arith, pow2_mono order 62 (omega arith)) in
    let o : order + 1 ≡ suc order = omega arith in rw (t, n, o, roundup_loop)

below_top : (order pages : ℕ) → order ≤ 63 → pages ≤ pow2 63 → pow2 order < pages → order < 63
below_top order pages small top h = elim (ℕ_discrete order 63) [
  | yes e ↦ let h' : pow2 63 < pages = subst (λ k. pow2 k < pages) e h in absurd (omega arith)
  | no ne ↦ omega arith
]

roundup_loop-Least :
    (fuel order pages : ℕ)
    → 63 ≤ fuel + order
    → order ≤ 63
    → pages ≤ pow2 63
    → ((k : ℕ) → k < order → pow2 k < pages)
    → Least pages (roundup_loop fuel (pow2 order) order pages)
unfolding roundup_loop
roundup_loop-Least zero order pages enough small top below =
    let e : order ≡ 63 = omega arith in record { holds = rw e top; least = below }
roundup_loop-Least (suc fuel) order pages enough small top below =
    elim (dec_lt (pow2 order) pages) [
      | no h ↦
          let t : ltb (pow2 order) pages ≡ false = ground arith in
          rw (t, roundup_loop) (record { holds = omega arith; least = below })
      | yes h ↦
          let room : order < 63 = below_top order pages small top h in
          rw (roundup_loop-step fuel order pages room h) (
            roundup_loop-Least fuel (suc order) pages (omega arith) room top
              (λ k l. elim (ℕ_discrete k order) [ yes e ↦ rw e h | no ne ↦ below k (omega arith) ]))
    ]

-- `roundup_order` gives the least order whose block holds so many pages.
pub roundup_order-Least : (pages : ℕ) → pages ≤ pow2 63 → Least pages (roundup_order pages)
unfolding roundup_order
roundup_order-Least pages top =
    roundup_loop-Least 64 0 pages (omega arith) (omega arith) top (λ k l. absurd (omega arith))

-- `g_pool_sizes`
abbrev pub PoolSizes : (ℕ → ℕ) → Type 0
PoolSizes sizes = (i : ℕ) → i < pool_count → sizes i ≡ 16 * pow2 i

-- The first pool, from `i` on, whose chunks are large enough.
find_pool-some :
    (n i size : ℕ) (sizes : ℕ → ℕ) {r : ℕ}
    → find_pool n i size sizes ≡ some r
    → (i ≤ r) × (r < i + n) × (size ≤ sizes r) × ((k : ℕ) → i ≤ k → k < r → sizes k < size)
unfolding find_pool
find_pool-some zero i size sizes e = absurd (ground arith)
find_pool-some (suc n) i size sizes {r} e = elim (Bool-cases (leb size (sizes i))) [
  | inl t ↦
      let here : ◌≡◌ {A = Option ℕ} (some i) (some r) = rw (t, find_pool) at e in
      (ground arith, ground arith, ground arith, λ k l u. absurd (ground arith))
  | inr t ↦
      let there : find_pool n (i + 1) size sizes ≡ some r = rw (t, find_pool) at e in
      let f = find_pool-some n (i + 1) size sizes {r = r} there in
      (
        omega (arith, f.0),
        omega (arith, f.1),
        f.2,
        λ k l u. elim (ℕ_discrete k i) [
          | yes here ↦ rw here (ground arith)
          | no later ↦ f.3 k (omega arith) u
        ],
      )
]

find_pool-none :
    (n i size : ℕ) (sizes : ℕ → ℕ)
    → find_pool n i size sizes ≡ none
    → (k : ℕ) → i ≤ k
    → k < i + n
    → sizes k < size
unfolding find_pool
find_pool-none zero i size sizes e k l u = absurd (omega arith)
find_pool-none (suc n) i size sizes e k l u = elim (Bool-cases (leb size (sizes i))) [
  | inl t ↦
      let here : ◌≡◌ {A = Option ℕ} (some i) none = rw (t, find_pool) at e in absurd (ground arith)
  | inr t ↦ elim (ℕ_discrete k i) [
    | yes here ↦ rw here (ground arith)
    | no later ↦
        find_pool-none n (i + 1) size sizes (rw (t, find_pool) at e) k (omega arith) (omega arith)
  ]
]

-- With the pool sizes of the code, `find_pool_index` finds a pool for a request of up to 2048 bytes:
-- the first whose chunks are large enough. It finds none for more.
pub find_pool_index_lem :
    (size : ℕ) (a : Allocator)
    → PoolSizes a.chunk_size
    → ((i : ℕ) × (find_pool_index size a ≡ some i)
        × (i < pool_count)
        × (size ≤ a.chunk_size i)
        × ((k : ℕ) → k < i → a.chunk_size k < size))
      ⊎ ((find_pool_index size a ≡ none) × (2048 < size))
unfolding find_pool_index
find_pool_index_lem size a sizes = elim (Option-cases (find_pool pool_count 0 size a.chunk_size)) [
  | inl e ↦ inr (
    e,
    omega (
      arith,
      sizes 7 (omega arith),
      find_pool-none pool_count 0 size a.chunk_size e 7 (omega arith) (omega arith),
    ),
  )
  | inr (i, e) ↦
      let f = find_pool-some pool_count 0 size a.chunk_size e in
      inl (i, e, omega (arith, f.1), f.2, λ k u. f.3 k (omega arith) u)
]
