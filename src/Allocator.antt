-- ===== src/Allocator.antt =====
-- src/allocator.c: chunks of 16 to 2048 bytes, cut from pages of the buddy system.
--
-- A chunk on a free list is its address; `free_list i` holds the chunks of `g_pools[i]`, first chunk
-- first. The `struct list_head` that the kernel keeps inside a free chunk is the list itself here.
pub mod Sizes
pub mod Chunks
pub mod Invariant
pub mod Fresh
pub mod Expand
pub mod Take
pub mod Allocate
pub mod Slots
pub mod PutBack
pub mod Retire
pub mod FreeChunk
pub mod FreeBlock
pub mod Free
pub mod FreeTwice
pub mod Share
mod Tests
use bare_metal_os.Base.{
  ℕ, zero, suc, ◌+◌, ◌-◌, ◌*◌, ◌/◌, ◌%◌, bit_and, Bool, true, false, not, ◌&&◌, ◌||◌, Option, none,
  some, List, [], ◌∷◌, ltb, leb, ◌==◌, if◌then◌else◌, update, count,
}
use bare_metal_os.Base.Words.{word_mod, add64, sub64, inc32, dec32}
use bare_metal_os.Config.{page_size, max_alloc_size}
use bare_metal_os.Align.{align_down_ul}
use bare_metal_os.Buddy.{
  alloc_pages, free_pages, PageState, Frame, Buddy, alloc_page_head, alloc_chunk_pool,
}

-- CHUNK_POOL_COUNT
abbrev pub pool_count : ℕ
pool_count = 8

-- The file's variables, with those of lib/buddy.c.
pub record Allocator : Type 0 where
  pub buddy : Buddy
  pub chunk_size : ℕ → ℕ
  pub free_list : ℕ → List ℕ
  pub ready : Bool

-- while (n < pages), on fuel; an `unsigned long` shifts out its top bit.
pub roundup_loop : ℕ → ℕ → ℕ → ℕ → ℕ
roundup_loop zero n order pages = order
roundup_loop (suc fuel) n order pages = elim (ltb n pages) [
  | false ↦ order
  | true ↦ roundup_loop fuel (n * 2 % word_mod) (order + 1) pages
]

pub roundup_order : ℕ → ℕ
roundup_order pages = roundup_loop 64 1 0 pages

pub addr_to_page_idx : ℕ → Buddy → ℕ
addr_to_page_idx addr b = sub64 addr b.mempool_start / page_size

-- for (i = 0; i < CHUNK_POOL_COUNT; ++i), with `n` pools left; `none` is -1.
pub find_pool : ℕ → ℕ → ℕ → (ℕ → ℕ) → Option ℕ
find_pool zero i size sizes = none
find_pool (suc n) i size sizes =
    let rest = find_pool n (i + 1) size sizes in if leb size (sizes i) then some i else rest

pub find_pool_index : ℕ → Allocator → Option ℕ
find_pool_index size a = find_pool pool_count 0 size a.chunk_size

-- The chunks of a page, put on the list one by one.
pub add_chunks : ℕ → ℕ → ℕ → List ℕ → List ℕ
add_chunks zero addr size l = l
add_chunks (suc n) addr size l = add_chunks n (addr + size) size (addr ∷ l)

-- The frame of a page that becomes a chunk pool.
abbrev pub pool_frame : ℕ → Frame → Frame
pool_frame pool_idx f = record f {
  order = 0;
  state = alloc_chunk_pool;
  meta_pool_idx = pool_idx;
  ref_count = 0;
}

abbrev pub set_frame : ℕ → Frame → Buddy → Buddy
set_frame idx f b = record b { frames = update b.frames idx f }

-- `expand_chunk_pool`; `none` is -1.
pub expand_chunk_pool : ℕ → Allocator → Option Allocator
expand_chunk_pool pool_idx a =
    let (page, b) = alloc_pages 0 a.buddy in
    let idx = addr_to_page_idx page b in
    let size = a.chunk_size pool_idx in
    if page == 0
    then none
    else some (record a {
      buddy = set_frame idx (pool_frame pool_idx (b.frames idx)) b;
      free_list =
          update a.free_list pool_idx
            (add_chunks (page_size / size) page size (a.free_list pool_idx));
    })

-- Taking the first chunk off the list; a list is empty here only if the code would read the head
-- itself as a chunk, which `expand_chunk_pool` rules out.
pub take_chunk : ℕ → Allocator → ℕ × Allocator
take_chunk pool_idx a = elim (a.free_list pool_idx) [
  | [] ↦ (0, a)
  | ck ∷ rest ↦
      let idx = addr_to_page_idx ck a.buddy in
      let f = a.buddy.frames idx in
      (
        ck,
        record a {
          buddy = set_frame idx (record f { ref_count = inc32 f.ref_count }) a.buddy;
          free_list = update a.free_list pool_idx rest;
        },
      )
]

abbrev pub is_empty : List ℕ → Bool
is_empty [] = true
is_empty (_ ∷ _) = false

pub allocate_chunk : ℕ → Allocator → ℕ × Allocator
allocate_chunk pool_idx a =
    if is_empty (a.free_list pool_idx)
    then (elim (expand_chunk_pool pool_idx a) [ none ↦ (0, a) | some a' ↦ take_chunk pool_idx a' ])
    else take_chunk pool_idx a

pub allocate_pages : ℕ → Allocator → ℕ × Allocator
allocate_pages size a =
    let (ptr, b) = alloc_pages (roundup_order ((size + page_size - 1) / page_size)) a.buddy in
    (ptr, record a { buddy = b })

-- `allocate`: the address, 0 for NULL. (`buddy_alloc_pages` that fails changes nothing, and so
-- does `expand_chunk_pool`.)
pub allocate : ℕ → Allocator → ℕ × Allocator
allocate size a =
    if not a.ready || ((size == 0) || ltb max_alloc_size size)
    then (0, a)
    else if leb size 2048
    then (elim (find_pool_index size a) [ none ↦ (0, a) | some i ↦ allocate_chunk i a ])
    else allocate_pages size a

-- The chunks that do not lie in the page at `base`.
pub off_page : ℕ → List ℕ → List ℕ
off_page base [] = []
off_page base (x ∷ l) =
    if leb base x && ltb x (base + page_size) then off_page base l else x ∷ off_page base l

-- `free` of a chunk that passes the tests: back on its list; a page with no chunk out goes back to
-- the buddy system.
pub free_chunk : ℕ → ℕ → ℕ → ℕ → Allocator → Allocator
free_chunk ptr page_idx base pool_idx a =
    let f = a.buddy.frames page_idx in
    let n = dec32 f.ref_count in
    let l = ptr ∷ a.free_list pool_idx in
    if n == 0
    then record a {
      buddy =
          free_pages base
            (set_frame page_idx (record f { state = alloc_page_head; ref_count = n }) a.buddy);
      free_list = update a.free_list pool_idx (off_page base l);
    }
    else record a {
      buddy = set_frame page_idx (record f { ref_count = n }) a.buddy;
      free_list = update a.free_list pool_idx l;
    }

-- One owner less of a block of pages.
pub free_block : ℕ → ℕ → Allocator → Allocator
free_block ptr page_idx a =
    let f = a.buddy.frames page_idx in
    let b = set_frame page_idx (record f { cow_ref_count = dec32 f.cow_ref_count }) a.buddy in
    record a { buddy = if dec32 f.cow_ref_count == 0 then free_pages ptr b else b }

-- `GMEMPOOL_SIZE != 0 && addr >= G_MEMPOOL_START && addr < G_MEMPOOL_START + G_MEMPOOL_SIZE`
pub in_region : ℕ → Buddy → Bool
in_region addr b =
    not (b.mempool_size == 0)
    && (leb b.mempool_start addr && ltb addr (add64 b.mempool_start b.mempool_size))

-- The tests on a chunk: its pool exists, its address is that of a chunk, and it is not free.
pub is_live_chunk : ℕ → ℕ → ℕ → Allocator → Bool
is_live_chunk ptr base pool_idx a =
    not (leb pool_count pool_idx)
    && (((ptr - base) % a.chunk_size pool_idx == 0) && (count ptr (a.free_list pool_idx) == 0))

-- `free` of an address in the pool, by the state of its page.
pub free_at : ℕ → ℕ → ℕ → ℕ → Allocator → PageState → Allocator
free_at ptr page_idx base pool_idx a alloc_chunk_pool =
    if is_live_chunk ptr base pool_idx a then free_chunk ptr page_idx base pool_idx a else a
free_at ptr page_idx base pool_idx a alloc_page_head =
    if bit_and ptr (page_size - 1) == 0 then free_block ptr page_idx a else a
free_at ptr page_idx base pool_idx a _ = a

pub free : ℕ → Allocator → Allocator
free ptr a =
    let b = a.buddy in
    let page_idx = addr_to_page_idx ptr b in
    let base = align_down_ul ptr page_size in
    let pool_idx = (b.frames page_idx).meta_pool_idx in
    if not a.ready || ((ptr == 0) || (not (in_region ptr b) || leb b.total_page page_idx))
    then a
    else free_at ptr page_idx base pool_idx a (b.frames page_idx).state

pub page_inc_ref : ℕ → Allocator → Allocator
page_inc_ref ptr a =
    let idx = addr_to_page_idx ptr a.buddy in
    let f = a.buddy.frames idx in
    if in_region ptr a.buddy
    then record a {
      buddy = set_frame idx (record f { cow_ref_count = inc32 f.cow_ref_count }) a.buddy;
    }
    else a

pub get_page_ref : ℕ → Allocator → ℕ
get_page_ref ptr a =
    if in_region ptr a.buddy
    then (a.buddy.frames (addr_to_page_idx ptr a.buddy)).cow_ref_count
    else 0
