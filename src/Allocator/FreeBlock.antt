-- ===== src/Allocator/FreeBlock.antt =====
-- `free` of a block of pages.
use native.Mathlib.Decide.{ℕ_discrete}
use bare_metal_os.Base.{ℕ, ◌≡◌, refl, ◌∙◌, inl, inr, arith, ◌==◌, Bool-cases}
use bare_metal_os.Base.Words.{dec32}
use bare_metal_os.Base.Bits.{pow2, pow2_pos}
use bare_metal_os.Buddy.{free_pages, Frame, Buddy, alloc_page_head, alloc_chunk_pool}
use bare_metal_os.Buddy.InHand.{Outside, IsConsistent, position}
use bare_metal_os.Buddy.Free.{end_of, freed_page-some, free_pages-IsConsistent, free_pages_cases}
use bare_metal_os.Buddy.Remark.{with_frame, counters-IsConsistent}
use bare_metal_os.Buddy.RoundTrip.{free_pages-SamePool, IsFree-dec}
use bare_metal_os.Allocator.{free_block, Allocator}
use bare_metal_os.Allocator.Invariant.{IsValid}
use bare_metal_os.Allocator.Expand.{Keeps}
use bare_metal_os.Allocator.Allocate.{SameChunks, pages-Keeps}

-- Giving back pages leaves the pages of chunks as they are.
free_pages-SameChunks : (addr : ℕ) {s : Buddy} → IsConsistent s → SameChunks s (free_pages addr s)
free_pages-SameChunks addr {s} c = elim (free_pages_cases addr c) [
  | inl (_, e) ↦ rw e (λ p st. refl, λ p st. st)
  | inr (idx, found, r) ↦
      let (inside, head) = freed_page-some addr s found in
      let block = (c.good idx inside (inr (omega arith))).alloc_block head in
      let other : (p : ℕ) → (s.frames p).state ≡ alloc_chunk_pool → Outside idx (end_of s idx) p =
        λ p st. elim (position idx (pow2 (s.frames idx).order) p) [
          | inl e ↦ absurd (ground (arith, head, rw e at st))
          | inr (inl (l, u)) ↦ absurd (ground (arith, block.tails p l u))
          | inr (inr out) ↦ out
        ] in
      (
        λ p st. r.others p (other p st) (ground arith),
        λ p st. elim (IsFree-dec (s.frames p).state) [
          | inl free' ↦ absurd (ground (arith, r.keep_free p free'))
          | inr busy ↦ elim (position idx (pow2 (s.frames idx).order) p) [
            | inl e ↦ absurd (
                ground (
                  arith,
                  r.now_free p (omega arith) (omega (arith, pow2_pos (s.frames idx).order)),
                ))
            | inr (inl (l, u)) ↦ absurd (ground (arith, r.now_free p (omega arith) u))
            | inr (inr out) ↦ rw (← r.others p out busy) st
          ]
        ],
      )
]

counters-SameChunks :
    (s : Buddy) (idx : ℕ) (f : Frame)
    → (s.frames idx).state ≡ alloc_page_head
    → f.state ≡ alloc_page_head
    → SameChunks s (with_frame idx f s)
counters-SameChunks s idx f old new = (
  λ p st. elim (ℕ_discrete p idx) [
    | yes e ↦ absurd (ground (arith, rw e at st))
    | no ne ↦ ground arith
  ],
  λ p st. elim (ℕ_discrete p idx) [
    | yes e ↦ absurd (ground (arith, rw e at st))
    | no ne ↦ ground arith
  ],
)

pub free_block-Keeps :
    (x idx : ℕ) {a : Allocator}
    → IsValid a
    → (a.buddy.frames idx).state ≡ alloc_page_head
    → Keeps a (free_block x idx a)
unfolding free_block
free_block-Keeps x idx {a} v head =
    let f = record (a.buddy.frames idx) {
      cow_ref_count = dec32 (a.buddy.frames idx).cow_ref_count;
    } in
    let b = with_frame idx f a.buddy in
    let good = counters-IsConsistent a.buddy idx f refl refl v.pages in
    let marks = counters-SameChunks a.buddy idx f head head in
    let less =
      pages-Keeps a b v good (record { start = refl; size = refl; total = refl; ready = refl })
        marks in
    elim (Bool-cases (f.cow_ref_count == 0)) [
      | inr e ↦ rw e less
      | inl e ↦
          let same = free_pages-SamePool x b in
          let chunks = free_pages-SameChunks x good in
          rw e (
            pages-Keeps a (free_pages x b) v (free_pages-IsConsistent x good)
              (record {
                start = same.start;
                size = same.size;
                total = same.total;
                ready = same.ready;
              })
              (
                λ p st. chunks.0 p (rw (marks.0 p st) st) ∙ marks.0 p st,
                λ p st. marks.1 p (chunks.1 p st),
              ))
    ]
