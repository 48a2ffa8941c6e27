-- ===== src/Allocator/Slots.antt =====
-- The chunks of a page counted slot by slot: a page of which a chunk is out has a positive counter.
use native.Mathlib.Decide.{ℕ_discrete}
use bare_metal_os.Base.{
  ℕ, zero, suc, ◌+◌, ◌-◌, ◌*◌, ◌/◌, ◌%◌, ◌≤◌, ◌<◌, ◌≡◌, refl, List, [], ◌∷◌, arith, ◌==◌,
  if◌then◌else◌, count,
}
use bare_metal_os.Base.Bits.{pow2, div-mul_of_mod, pow2-add, aligned_le}
use bare_metal_os.Config.{page_size}
use bare_metal_os.Buddy.{Buddy}
use bare_metal_os.Buddy.InHand.{IsPool}
use bare_metal_os.Allocator.{pool_count, Allocator}
use bare_metal_os.Allocator.Sizes.{PoolSizes}
use bare_metal_os.Allocator.Chunks.{hits, hits-suc, page_at, count_on}
use bare_metal_os.Allocator.Invariant.{page_of, size_bounds, IsOut, IsChunk, IsValid}

-- How often the `n` slots from `addr` on stand on a list.
slots : ℕ → ℕ → ℕ → List ℕ → ℕ
slots zero addr size l = 0
slots (suc n) addr size l = count addr l + slots n (addr + size) size l

slots-nil : (n addr size : ℕ) → slots n addr size [] ≡ 0
unfolding slots
slots-nil zero addr size = refl
slots-nil (suc n) addr size = ground (arith, slots-nil n (addr + size) size)

slots-cons :
    (n addr size x : ℕ) (l : List ℕ)
    → 0 < size
    → slots n addr size (x ∷ l) ≡ hits n addr size x + slots n addr size l
unfolding slots
slots-cons zero addr size x l pos = ground arith
slots-cons (suc n) addr size x l pos =
    ground (arith, slots-cons n (addr + size) size x l pos, hits-suc n addr size x pos)

-- If each address stands on the list at most once, then so does each slot.
slots-bound : (n addr size : ℕ) (l : List ℕ) → ((x : ℕ) → count x l ≤ 1) → slots n addr size l ≤ n
unfolding slots
slots-bound zero addr size l once = omega arith
slots-bound (suc n) addr size l once =
    omega (arith, once addr, slots-bound n (addr + size) size l once)

-- The slots of page `p` hold what the list has on this page.
slots-count_on :
    (n addr size start p : ℕ) (l : List ℕ)
    → 0 < size
    → ((x : ℕ) → 0 < count x l → hits n addr size x ≡ (if page_at start x == p then 1 else 0))
    → slots n addr size l ≡ count_on start p l
unfolding count_on
slots-count_on n addr size start p [] pos at = slots-nil n addr size
slots-count_on n addr size start p (x ∷ l) pos at = ground (
  arith,
  slots-cons n addr size x l pos,
  at x,
  slots-count_on n addr size start p l pos (λ y on. at y (ground arith)),
)

-- A page with `n` slots, one of which is not on the list.
pub one_slot_off :
    (n addr size start p x : ℕ) (l : List ℕ)
    → 0 < size
    → ((y : ℕ) → 0 < count y (x ∷ l) → hits n addr size y ≡ (if page_at start y == p then 1 else 0))
    → ((y : ℕ) → count y l ≤ 1)
    → count x l ≡ 0
    → page_at start x ≡ p
    → count_on start p l < n
unfolding count_on
one_slot_off n addr size start p x l pos at once off here =
    let all = slots-count_on n addr size start p (x ∷ l) pos at in
    let bound = slots-bound n addr size (x ∷ l) (λ y. ground (arith, once y)) in
    ground (arith, all, bound)

-- The pool sizes divide the page.
pub size_divides :
    {sizes : ℕ → ℕ} (i : ℕ)
    → PoolSizes sizes
    → i < pool_count
    → page_size / sizes i * sizes i ≡ page_size
size_divides {sizes} i h l =
    let size : sizes i ≡ pow2 (4 + i) = omega (arith, h i l, pow2-add 4 i) in
    rw size
      (div-mul_of_mod page_size (pow2 (4 + i)) (aligned_le (4 + i) 12 page_size (omega arith) refl))

-- Where a chunk lies on its page.
chunk_hit :
    {b : Buddy} {size i : ℕ} (x p : ℕ)
    → IsPool b
    → 0 < size
    → page_size / size * size ≡ page_size
    → IsChunk b size i x
    → hits (page_size / size) (b.mempool_start + p * page_size) size x
      ≡ (if page_at b.mempool_start x == p then 1 else 0)
chunk_hit {b} {size} x p pool pos divides c = elim (ℕ_discrete (page_at b.mempool_start x) p) [
  | no ne ↦ rw divides (ground (arith, ne, c.above))
  | yes e ↦
      let o : x - (b.mempool_start + p * page_size) ≡ x % page_size =
        omega (arith, c.above, pool.aligned, e) in
      rw (divides, o, c.placed) (ground (arith, c.above, e))
]

-- The page of a chunk that is out counts it.
pub IsOut-counted :
    {a : Allocator} (i x : ℕ)
    → IsValid a
    → i < pool_count
    → IsOut a i x
    → 0 < (a.buddy.frames (page_of a.buddy x)).ref_count
IsOut-counted {a} i x v known (c, unlisted) =
    let p = page_of a.buddy x in
    let (lo, hi) = size_bounds i v.sizes known in
    let divides = size_divides i v.sizes known in
    let is_chunk : (y : ℕ)
        → 0 < count y (x ∷ a.free_list i)
        → IsChunk a.buddy (a.chunk_size i) i y =
      λ y pos. elim (ℕ_discrete y x) [
        | yes e ↦ rw e c
        | no ne ↦ v.chunks i y known (ground (arith, ne, pos))
      ] in
    let less =
      one_slot_off (page_size / a.chunk_size i) (a.buddy.mempool_start + p * page_size)
        (a.chunk_size i) a.buddy.mempool_start p x (a.free_list i) (omega arith)
        (λ y pos. chunk_hit y p v.region (omega arith) divides (is_chunk y pos))
        (λ y. v.once i y known) unlisted refl in
    let acc = (v.accounts p c.inside c.pool_page).balance in
    omega (arith, less, rw c.its_pool at acc)
