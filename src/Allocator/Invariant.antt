-- ===== src/Allocator/Invariant.antt =====
-- The invariant of the allocator: its free lists hold chunks of its pool pages, each once, and every
-- pool page counts the chunks that are not on a list.
use bare_metal_os.Base.{ℕ, ◌+◌, ◌/◌, ◌%◌, ◌≤◌, ◌<◌, ◌≡◌, List, arith, count}
use bare_metal_os.Base.Words.{word_mod}
use bare_metal_os.Base.Bits.{pow2_pos, pow2_mono}
use bare_metal_os.Config.{page_size}
use bare_metal_os.Buddy.{Buddy, alloc_chunk_pool}
use bare_metal_os.Buddy.InHand.{IsConsistent, IsPool}
use bare_metal_os.Allocator.{pool_count, addr_to_page_idx, Allocator}
use bare_metal_os.Allocator.Sizes.{PoolSizes}
use bare_metal_os.Allocator.Chunks.{page_at, count_on}

-- The page of the pool on which an address lies.
abbrev pub page_of : Buddy → ℕ → ℕ
page_of b x = page_at b.mempool_start x

-- `x` is the address of a chunk of pool `i`, whose chunks have `size` bytes.
pub record IsChunk (b : Buddy) (size i x : ℕ) : Type 0 where
  pub above : b.mempool_start ≤ x
  pub inside : page_of b x < b.total_page
  pub pool_page : (b.frames (page_of b x)).state ≡ alloc_chunk_pool
  pub its_pool : (b.frames (page_of b x)).meta_pool_idx ≡ i
  pub placed : x % page_size % size ≡ 0

-- A page of chunks belongs to a pool, and its counter and the free chunks on it make up the page.
pub record Accounted (b : Buddy) (sizes : ℕ → ℕ) (lists : ℕ → List ℕ) (p : ℕ) : Type 0 where
  pub pool : (b.frames p).meta_pool_idx < pool_count
  pub balance :
      let i = (b.frames p).meta_pool_idx in
      (b.frames p).ref_count + count_on b.mempool_start p (lists i) ≡ page_size / sizes i

pub record IsValid (a : Allocator) : Type 0 where
  pub pages : IsConsistent a.buddy
  pub region : IsPool a.buddy
  pub sizes : PoolSizes a.chunk_size
  pub chunks :
      (i x : ℕ)
      → i < pool_count
      → 0 < count x (a.free_list i)
      → IsChunk a.buddy (a.chunk_size i) i x
  pub once : (i x : ℕ) → i < pool_count → count x (a.free_list i) ≤ 1
  pub accounts :
      (p : ℕ)
      → p < a.buddy.total_page
      → (a.buddy.frames p).state ≡ alloc_chunk_pool
      → Accounted a.buddy a.chunk_size a.free_list p

-- What the pool sizes are good for.
pub size_bounds :
    {sizes : ℕ → ℕ} (i : ℕ) → PoolSizes sizes → i < pool_count → (16 ≤ sizes i) × (sizes i ≤ 2048)
size_bounds i h l = omega (arith, h i l, pow2_pos i, pow2_mono i 7 (omega arith))

-- The page index that the code computes.
pub addr_to_page_idx_lem :
    {b : Buddy} (x : ℕ)
    → IsPool b
    → b.mempool_start ≤ x
    → x < word_mod
    → addr_to_page_idx x b ≡ page_of b x
unfolding addr_to_page_idx
addr_to_page_idx_lem x pool above small = ground (arith, pool.no_wrap)

pub IsChunk-small : {b : Buddy} {size i x : ℕ} → IsPool b → IsChunk b size i x → x < word_mod
IsChunk-small pool c = omega (arith, pool.no_wrap, pool.holds, c.inside, c.above)

-- A chunk of pool `i` that is handed out: no list has it.
abbrev pub IsOut : Allocator → ℕ → ℕ → Type 0
IsOut a i x = IsChunk a.buddy (a.chunk_size i) i x × (count x (a.free_list i) ≡ 0)
