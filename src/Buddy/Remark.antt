-- ===== src/Buddy/Remark.antt =====
-- Writes to the frame array by the clients of the buddy system that keep its invariant.
use native.Mathlib.Decide.{ℕ_discrete}
use bare_metal_os.Base.{ℕ, ◌+◌, ◌<◌, ◌≡◌, ◌⊎◌, inl, inr, arith, update}
use bare_metal_os.Base.Bits.{pow2}
use bare_metal_os.Buddy.{Frame, Buddy, alloc_page_head, alloc_chunk_pool}
use bare_metal_os.Buddy.InHand.{IsHead, Outside, IsConsistent, Block-frame, Good-frame, Good}

abbrev pub with_frame : ℕ → Frame → Buddy → Buddy
with_frame idx f s = record s { frames = update s.frames idx f }

-- The counters of a page may change.
module _ (s : Buddy) (idx : ℕ) (f : Frame) (state : f.state ≡ (s.frames idx).state)
    (order : f.order ≡ (s.frames idx).order) where
  written : ℕ → Frame
  written = update s.frames idx f

  same_marks :
      (p : ℕ) → ((written p).state ≡ (s.frames p).state) × ((written p).order ≡ (s.frames p).order)
  unfolding written
  same_marks p = elim (ℕ_discrete p idx) [ yes e ↦ rw e (ground arith) | no ne ↦ ground arith ]

  counters-Good : (p : ℕ) → Good s.frames s.total_page 0 p → Good written s.total_page 0 p
  counters-Good p old =
      let (st, o) = same_marks p in
      record {
        free_block = rw (st, o) λ e. Block-frame (λ j l u. (same_marks j).0) (old.free_block e);
        alloc_block = rw (st, o) λ e. Block-frame (λ j l u. (same_marks j).0) (old.alloc_block e);
        chunk_page = rw (st, o) old.chunk_page;
        apart = λ e l. absurd (omega arith);
      }

  pub counters-IsConsistent : IsConsistent s → IsConsistent (with_frame idx f s)
  unfolding written
  counters-IsConsistent c = record {
    good = λ p pin out. counters-Good p (c.good p pin out);
    listed = λ p k small. ground (arith, c.listed p k small, same_marks p);
  }

-- A page on its own: an allocated block of order 0, or a page of chunks.
abbrev pub IsSingle : Frame → Type 0
IsSingle f = ((f.state ≡ alloc_page_head) ⊎ (f.state ≡ alloc_chunk_pool)) × (f.order ≡ 0)

-- Such a page may change from the one into the other.
module _ {s : Buddy} (idx : ℕ) (f : Frame) (inside : idx < s.total_page)
    (old : IsSingle (s.frames idx)) (new : IsSingle f) (c : IsConsistent s) where
  remarked : ℕ → Frame
  remarked = update s.frames idx f

  single-Good : Good remarked s.total_page 0 idx
  unfolding remarked
  single-Good = record {
    free_block = λ e. absurd (ground arith);
    alloc_block = λ e.
        let o : (remarked idx).order ≡ 0 = ground arith in
        rw o (record {
          small = omega arith;
          aligned = omega arith;
          inside = omega arith;
          tails = λ j l u. absurd (omega arith);
        });
    chunk_page = λ e. ground arith;
    apart = λ e l. absurd (omega arith);
  }

  -- No block covers the page.
  uncovered :
      (p j : ℕ)
      → p < s.total_page
      → IsHead (s.frames p).state
      → p < j
      → j < p + pow2 (s.frames p).order
      → remarked j ≡ s.frames j
  unfolding remarked
  uncovered p j pin (inl e) l u =
      ground (arith, ((c.good p pin (inr (omega arith))).free_block e).tails j l u)
  uncovered p j pin (inr e) l u =
      ground (arith, ((c.good p pin (inr (omega arith))).alloc_block e).tails j l u)

  remarked-Good : (p : ℕ) → p < s.total_page → Outside 0 0 p → Good remarked s.total_page 0 p
  unfolding remarked
  remarked-Good p pin out = elim (ℕ_discrete p idx) [
    | yes e ↦ rw e single-Good
    | no ne ↦
        Good-frame (ground arith) (λ h j l u. uncovered p j pin h l u) (λ h l. absurd (omega arith))
          (c.good p pin out)
  ]

  pub single-IsConsistent : IsConsistent (with_frame idx f s)
  unfolding remarked
  single-IsConsistent = record {
    good = remarked-Good;
    listed = λ p k small. ground (arith, c.listed p k small);
  }
