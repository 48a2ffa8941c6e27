-- ===== src/Startup.antt =====
-- src/allocator.c: the reserved regions, and the search for a place for the frame array.
pub mod Place
mod Tests
use bare_metal_os.Base.{
  ℕ, zero, suc, ◌+◌, ◌&&◌, ◌||◌, Option, none, some, List, [], ◌∷◌, ◌++◌, ltb, leb, ◌==◌,
  if◌then◌else◌, length,
}
use bare_metal_os.Base.Words.{add64, sub64}
use bare_metal_os.Config.{page_size}
use bare_metal_os.Align.{align_up_ul}
use bare_metal_os.Buddy.{Buddy}

-- MAX_RESERVED_REGIONS
abbrev pub max_reserved_regions : ℕ
max_reserved_regions = 32

-- `struct reserved_region`
pub record Reserved : Type 0 where
  pub start : ℕ
  pub size : ℕ

-- The part of a range that lies in the pool.
abbrev pub clipped : ℕ → ℕ → ℕ → ℕ → Reserved
clipped start end pool_start pool_end =
    let reserve_start = if ltb start pool_start then pool_start else start in
    let reserve_end = if ltb pool_end end then pool_end else end in
    record { start = reserve_start; size = sub64 reserve_end reserve_start }

-- `memory_reserve`: the table with its count is a list.
pub memory_reserve : ℕ → ℕ → Buddy → List Reserved → List Reserved
memory_reserve start size b rgns =
    let end = add64 start size in
    let pool_end = add64 b.mempool_start b.mempool_size in
    if (size == 0) || leb max_reserved_regions (length rgns)
    then rgns
    else if leb end b.mempool_start || leb pool_end start
    then rgns
    else rgns ++ (clipped start end b.mempool_start pool_end ∷ [])

-- The end of the first region that meets a range.
pub first_overlap : ℕ → ℕ → List Reserved → Option ℕ
first_overlap alloc_start alloc_end [] = none
first_overlap alloc_start alloc_end (r ∷ rgns) =
    let rest = first_overlap alloc_start alloc_end rgns in
    if ltb alloc_start (add64 r.start r.size) && ltb r.start alloc_end
    then some (add64 r.start r.size)
    else rest

-- while (1) of `startup_alloc`, on fuel; `none` is 0.
pub find_place : ℕ → ℕ → ℕ → ℕ → List Reserved → Option ℕ
find_place zero alloc_start size pool_end rgns = none
find_place (suc fuel) alloc_start size pool_end rgns =
    let a = align_up_ul alloc_start page_size in
    let alloc_end = add64 a size in
    if ltb pool_end alloc_end then none else (elim (first_overlap a alloc_end rgns) [
      | none ↦ some a
      | some r_end ↦ find_place fuel r_end size pool_end rgns
    ])

-- The end of `startup_alloc`: the place for the frame array, which is reserved as well. Each turn
-- goes behind another region.
pub place_frames : ℕ → Buddy → List Reserved → Option ℕ × List Reserved
place_frames size b rgns =
    let place =
      find_place (length rgns + 1) b.mempool_start size (add64 b.mempool_start b.mempool_size)
        rgns in
    elim place [ none ↦ (none, rgns) | some a ↦ (some a, memory_reserve a size b rgns) ]
