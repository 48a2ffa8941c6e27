-- ===== src/Buddy/Build.antt =====
-- lib/buddy.c, `buddy_init`.
pub mod Carve
pub mod Total
use bare_metal_os.Base.{
  ℕ, zero, suc, ◌+◌, ◌-◌, bit_and, Bool, true, false, ◌&&◌, Option, none, some, [], ltb, leb, ◌==◌,
  if◌then◌else◌, update,
}
use bare_metal_os.Base.Bits.{pow2}
use bare_metal_os.Base.Words.{minus_one}
use bare_metal_os.Config.{max_order}
use bare_metal_os.Buddy.{same_state, add_free_block, Frame, Buddy, reserved, alloc_page_tail}

-- The first loop of `buddy_init`.
pub clear_frame : Frame → Frame
clear_frame f = record f {
  order = minus_one;
  state = if same_state f.state reserved then reserved else alloc_page_tail;
  meta_pool_idx = 255;
  ref_count = 0;
  cow_ref_count = 0;
}

pub clear_frames : ℕ → ℕ → (ℕ → Frame) → ℕ → Frame
clear_frames zero i f = f
clear_frames (suc n) i f = clear_frames n (i + 1) (update f i (clear_frame (f i)))

-- The contiguous free pages from page `j` on, with `n` pages left in the pool.
pub count_free : ℕ → ℕ → (ℕ → Frame) → ℕ
count_free zero j f = 0
count_free (suc n) j f =
    let rest = suc (count_free n (j + 1) f) in if same_state (f j).state reserved then 0 else rest

abbrev pub fits : ℕ → ℕ → ℕ → Bool
fits idx free_count order = (bit_and idx (pow2 order - 1) == 0) && leb (pow2 order) free_count

-- for (order = BUDDY_MAX_ORDER; order >= 0; --order): the first order that fits.
pub pick_order : ℕ → ℕ → ℕ → Option ℕ
pick_order zero idx free_count = if fits idx free_count 0 then some 0 else none
pick_order (suc o) idx free_count =
    let rest = pick_order o idx free_count in
    if fits idx free_count (suc o) then some (suc o) else rest

-- while (free_count > 0), on fuel; `none` means that the fuel ran out.
pub carve : ℕ → ℕ → ℕ → Buddy → Option (ℕ × Buddy)
carve fuel idx zero s = some (idx, s)
carve zero idx (suc n) s = none
carve (suc fuel) idx (suc n) s = elim (pick_order max_order idx (suc n)) [
  | none ↦ carve fuel idx (suc n) s
  | some o ↦ carve fuel (idx + pow2 o) (suc n - pow2 o) (add_free_block idx o s)
]

-- `frame_array[idx].order = 0`, at a reserved page
abbrev pub set_order_zero : ℕ → Buddy → Buddy
set_order_zero idx s = record s {
  frames = update s.frames idx (record (s.frames idx) { order = 0 });
}

-- while (idx < G_MEM_TOTAL_PAGE), on fuel.
pub build : ℕ → ℕ → Buddy → Option Buddy
build zero idx s = none
build (suc fuel) idx s = elim (ltb idx s.total_page) [
  | false ↦ some s
  | true ↦ elim (same_state (s.frames idx).state reserved) [
    | true ↦ build fuel (idx + 1) (set_order_zero idx s)
    | false ↦
        let n = count_free (s.total_page - idx) idx s.frames in
        elim (carve n idx n s) [ none ↦ none | some (idx', s') ↦ build fuel idx' s' ]
  ]
]

-- The state before the loop over the pages.
pub cleared : Buddy → Buddy
cleared s = record s {
  frames = clear_frames s.total_page 0 s.frames;
  free_area = λ k. if leb k max_order then [] else s.free_area k;
}

-- `buddy_init`; `none` would be a loop that does not end.
pub init : Buddy → Option Buddy
init s = elim (build (s.total_page + 1) 0 (cleared s)) [
  | none ↦ none
  | some r ↦ some (record r { ready = true })
]
