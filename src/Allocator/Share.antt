-- ===== src/Allocator/Share.antt =====
-- `page_inc_ref`: a block with one more owner, one of which gives it back.
use native.Mathlib.Decide.{ℕ_discrete}
use mathlib.Core.Path.{fun_ext}
use bare_metal_os.Base.{
  ℕ, ◌+◌, ◌-◌, ◌%◌, ◌≤◌, ◌<◌, bit_and, ◌≡◌, refl, ap, ◌∙◌, true, false, arith, ◌==◌, update,
}
use bare_metal_os.Base.Words.{word_mod, int_mod, inc32, dec32}
use bare_metal_os.Base.Bits.{bit_and-mask}
use bare_metal_os.Config.{page_size}
use bare_metal_os.Buddy.{Frame, alloc_page_head}
use bare_metal_os.Buddy.InHand.{IsPool}
use bare_metal_os.Allocator.{
  set_frame, free_block, in_region, free_at, free, page_inc_ref, Allocator,
}
use bare_metal_os.Allocator.Invariant.{page_of, addr_to_page_idx_lem, IsValid}
use bare_metal_os.Allocator.FreeTwice.{guard, free-guarded}

module _ (x : ℕ) (a : Allocator) (v : IsValid a) (ready : a.ready ≡ true)
    (above : a.buddy.mempool_start ≤ x) (inside : page_of a.buddy x < a.buddy.total_page)
    (start : x % page_size ≡ 0)
    (head : (a.buddy.frames (page_of a.buddy x)).state ≡ alloc_page_head)
    (owned : 0 < (a.buddy.frames (page_of a.buddy x)).cow_ref_count)
    (few : (a.buddy.frames (page_of a.buddy x)).cow_ref_count + 1 < int_mod) where
  abbrev page : ℕ
  page = page_of a.buddy x

  abbrev shared_frame : Frame
  shared_frame = record (a.buddy.frames page) {
    cow_ref_count = inc32 (a.buddy.frames page).cow_ref_count;
  }

  abbrev shared : Allocator
  shared = record a { buddy = set_frame page shared_frame a.buddy }

  small : x < word_mod
  small = omega (arith, v.region.no_wrap, v.region.holds, inside, above)

  in_pool : in_region x a.buddy ≡ true
  unfolding in_region
  in_pool = ground (arith, above, inside, v.region.holds, v.region.no_wrap)

  shares : page_inc_ref x a ≡ shared
  unfolding page_inc_ref
  shares = rw (in_pool, addr_to_page_idx_lem x v.region above small) refl

  pool : IsPool shared.buddy
  pool = record {
    not_null = v.region.not_null;
    aligned = v.region.aligned;
    holds = v.region.holds;
    no_wrap = v.region.no_wrap;
  }

  passes_guard : guard x shared ≡ false
  unfolding guard
  passes_guard =
      let at = addr_to_page_idx_lem {b = shared.buddy} x pool above small in
      let r : in_region x shared.buddy ≡ true = unfold in_region in in_pool in
      rw (r, at) (ground (arith, v.region.not_null, inside, ready, above))

  less : dec32 shared_frame.cow_ref_count ≡ (a.buddy.frames page).cow_ref_count
  less = omega (arith, few)

  back :
      update
        (update a.buddy.frames page shared_frame)
        page
        (record shared_frame { cow_ref_count = dec32 shared_frame.cow_ref_count })
      ≡ a.buddy.frames
  back =
      fun_ext λ j. elim (ℕ_discrete j page) [
        | yes e ↦ rw e (rw less (ground arith))
        | no ne ↦ ground arith
      ]

  -- With the allocator on, for the first address of a block of pages in the pool that has an owner:
  -- `page_inc_ref` and then `free` leave everything as it was, if the count of owners does not wrap
  -- round.
  pub free-page_inc_ref : free x (page_inc_ref x a) ≡ a
  unfolding free_at free_block
  free-page_inc_ref =
      let at : shared.buddy.frames page ≡ shared_frame = ground arith in
      let st : (shared.buddy.frames page).state ≡ alloc_page_head = rw at head in
      let mask : (bit_and x (page_size - 1) == 0) ≡ true = rw (bit_and-mask 12 x, start) refl in
      let left : (dec32 shared_frame.cow_ref_count == 0) ≡ false =
        rw less (ground (arith, owned)) in
      ap (free x) shares
      ∙ free-guarded x shared pool above small passes_guard
      ∙ rw (st, mask, at, left)
          (ap (λ fs. record a { buddy = record a.buddy { frames = fs } }) back)
