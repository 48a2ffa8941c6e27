-- ===== src/Buddy.antt =====
-- lib/buddy.c: the buddy system over the frame array.
--
-- `frame_array` is a map from page numbers, so that a write outside the pool would show; an `int`
-- is its 32-bit pattern. `free_area[k]` is the list of the pages whose `node` it links, first page
-- first: `list_add` puts a page in front, `list_del` takes it out of the list that holds it. Page
-- numbers stay below 2^19 + 2^10, so their sums are not wrapped.
pub mod Mark
pub mod InHand
pub mod Remark
pub mod Tests
pub mod RoundTrip
pub mod Free
pub mod Heads
pub mod Alloc
pub mod HandOut
pub mod Merge
pub mod Split
pub mod Take
pub mod Place
pub mod Region
pub mod Build
use bare_metal_os.Base.{
  ℕ, zero, suc, ◌+◌, ◌-◌, ◌*◌, ◌/◌, bit_and, bit_xor, min, Bool, true, false, not, ◌&&◌, ◌||◌,
  Option, none, some, List, [], ◌∷◌, ltb, leb, ◌==◌, if◌then◌else◌, update, erase,
}
use bare_metal_os.Base.Bits.{pow2}
use bare_metal_os.Base.Words.{minus_one, add64, sub64}
use bare_metal_os.Config.{
  page_size, max_order, max_pool_size, max_total_pages, default_pool_start, default_pool_size,
}
use bare_metal_os.Align.{align_down_ul, align_up_ul}

-- `enum page_state`
pub data PageState : Type 0 where
  free_head free_tail reserved alloc_page_head alloc_page_tail alloc_chunk_pool : PageState

-- `struct frame`, less `node`
pub record Frame : Type 0 where
  pub order : ℕ
  pub state : PageState
  pub meta_pool_idx : ℕ
  pub ref_count : ℕ
  pub cow_ref_count : ℕ

-- The file's variables.
pub record Buddy : Type 0 where
  pub frames : ℕ → Frame
  pub free_area : ℕ → List ℕ
  pub mempool_start : ℕ
  pub mempool_size : ℕ
  pub total_page : ℕ
  pub ready : Bool

abbrev pub same_state : PageState → PageState → Bool
same_state free_head free_head = true
same_state free_tail free_tail = true
same_state reserved reserved = true
same_state alloc_page_head alloc_page_head = true
same_state alloc_page_tail alloc_page_tail = true
same_state alloc_chunk_pool alloc_chunk_pool = true
same_state _ _ = false

unfoldable pub page_to_addr : Buddy → ℕ → ℕ
page_to_addr s idx = add64 s.mempool_start (idx * page_size)

-- The tailing pages of a block, from page `j`.
unfoldable pub mark_tails : ℕ → ℕ → PageState → (ℕ → Frame) → ℕ → Frame
mark_tails zero j tail f = f
mark_tails (suc n) j tail f =
    mark_tails n (j + 1) tail (update f j (record (f j) { order = minus_one; state = tail }))

unfoldable pub mark_block : ℕ → ℕ → PageState → PageState → (ℕ → Frame) → ℕ → Frame
mark_block idx order head tail f =
    mark_tails (pow2 order - 1) (idx + 1) tail
      (update f idx (record (f idx) { order = order; state = head }))

-- `list_add(&frame_array[idx].node, &free_area[order])`
abbrev pub link : ℕ → ℕ → (ℕ → List ℕ) → ℕ → List ℕ
link idx order areas = update areas order (idx ∷ areas order)

-- `list_del(&frame_array[idx].node)`
abbrev pub unlink : ℕ → (ℕ → List ℕ) → ℕ → List ℕ
unlink idx areas k = erase idx (areas k)

unfoldable pub add_free_block : ℕ → ℕ → Buddy → Buddy
add_free_block idx order s = record s {
  frames = mark_block idx order free_head free_tail s.frames;
  free_area = link idx order s.free_area;
}

-- `order` serves the log only.
unfoldable pub remove_free_block : ℕ → Buddy → Buddy
remove_free_block idx s = record s {
  frames = update s.frames idx (record (s.frames idx) { state = alloc_page_head });
  free_area = unlink idx s.free_area;
}

-- The first free block of order `current` or above, with `n` orders left, and its order.
unfoldable pub find_block : ℕ → ℕ → (ℕ → List ℕ) → Option (ℕ × ℕ)
find_block zero current areas = none
find_block (suc n) current areas = elim (areas current) [
  | [] ↦ find_block n (current + 1) areas
  | idx ∷ _ ↦ some (idx, current)
]

-- while (current > order)
unfoldable pub split_block : ℕ → ℕ → ℕ → Buddy → Buddy
split_block zero order idx s = s
split_block (suc current) order idx s =
    let rest = split_block current order idx (add_free_block (idx + pow2 current) current s) in
    if ltb order (suc current) then rest else s

unfoldable pub hand_out : ℕ → ℕ → Buddy → Buddy
hand_out idx order s =
    let f = mark_block idx order alloc_page_head alloc_page_tail s.frames in
    record s { frames = update f idx (record (f idx) { cow_ref_count = 1 }) }

-- `buddy_alloc_pages`: the address of the block, 0 for NULL.
unfoldable pub alloc_pages : ℕ → Buddy → ℕ × Buddy
alloc_pages order s =
    if not s.ready || ltb max_order order
    then (0, s)
    else (elim (find_block (max_order + 1 - order) order s.free_area) [
      | none ↦ (0, s)
      | some (idx, current) ↦ (
        page_to_addr s idx,
        hand_out idx order (split_block current order idx (remove_free_block idx s)),
      )
    ])

abbrev pub can_merge : ℕ → ℕ → Buddy → Bool
can_merge idx order s =
    let buddy_idx = bit_xor idx (pow2 order) in
    ltb order max_order
    && (ltb buddy_idx s.total_page
        && (same_state (s.frames buddy_idx).state free_head
            && ((s.frames buddy_idx).order == order)))

-- The block in hand is marked free; its buddy joins it.
pub join : ℕ → ℕ → Buddy → Buddy
join idx order s =
    let buddy_idx = bit_xor idx (pow2 order) in
    let s' = remove_free_block buddy_idx s in
    record s' { frames = mark_block (min buddy_idx idx) (order + 1) free_head free_tail s'.frames }

-- while (order < BUDDY_MAX_ORDER): the head of the merged block and its order.
pub merge : ℕ → ℕ → ℕ → Buddy → ℕ × ℕ × Buddy
merge zero idx order s = (idx, order, s)
merge (suc n) idx order s = elim (can_merge idx order s) [
  | false ↦ (idx, order, s)
  | true ↦ merge n (min (bit_xor idx (pow2 order)) idx) (order + 1) (join idx order s)
]

-- The page that `buddy_free_pages` gives back, if its tests pass.
pub freed_page : ℕ → Buddy → Option ℕ
freed_page addr s =
    let idx = sub64 addr s.mempool_start / page_size in
    if not s.ready || (addr == 0)
    then none
    else if ltb addr s.mempool_start || leb (add64 s.mempool_start s.mempool_size) addr
    then none
    else if not (bit_and addr (page_size - 1) == 0)
    then none
    else if leb s.total_page idx || not (same_state (s.frames idx).state alloc_page_head)
    then none
    else some idx

pub release : ℕ → Buddy → Buddy
release idx s =
    let order = (s.frames idx).order in
    let (head, o, r) =
      merge (max_order + 1) idx order
        (record s { frames = mark_block idx order free_head free_tail s.frames }) in
    add_free_block head o r

-- `buddy_free_pages`
pub free_pages : ℕ → Buddy → Buddy
free_pages addr s = elim (freed_page addr s) [ none ↦ s | some idx ↦ release idx s ]
