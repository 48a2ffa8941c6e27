-- ===== src/Allocator/PutBack.antt =====
-- `free` of a chunk, first part: the chunk goes back on its list, and its page counts one less.
use native.Mathlib.Decide.{ℕ_discrete}
use native.Mathlib.Nat.{div-le_self}
use bare_metal_os.Base.{
  ℕ, suc, ◌+◌, ◌/◌, ◌<◌, ◌≡◌, refl, ◌∙◌, ◌≢◌, ◌&&◌, List, ◌∷◌, arith, ◌==◌, if◌then◌else◌, update,
  count,
}
use bare_metal_os.Base.Words.{dec32}
use bare_metal_os.Config.{page_size}
use bare_metal_os.Buddy.{Frame, alloc_chunk_pool}
use bare_metal_os.Buddy.Remark.{with_frame, counters-IsConsistent}
use bare_metal_os.Allocator.{pool_count, Allocator}
use bare_metal_os.Allocator.Chunks.{count_on}
use bare_metal_os.Allocator.Invariant.{page_of, IsOut, IsChunk, Accounted, IsValid}
use bare_metal_os.Allocator.Slots.{IsOut-counted}

module _ (a : Allocator) (i x : ℕ) (v : IsValid a) (known : i < pool_count)
    (out : IsOut a i x) where
  page : ℕ
  page = page_of a.buddy x

  frame : Frame
  frame = a.buddy.frames page

  frame' : Frame
  frame' = record frame { ref_count = dec32 frame.ref_count }

  lists : ℕ → List ℕ
  lists = update a.free_list i (x ∷ a.free_list i)

  unfoldable pub put_back : Allocator
  unfolding page frame frame' lists
  put_back = record a { buddy = with_frame page frame' a.buddy; free_list = lists }

  same_mark :
      (p : ℕ)
      → ((update a.buddy.frames page frame' p).state ≡ (a.buddy.frames p).state)
        × ((update a.buddy.frames page frame' p).meta_pool_idx ≡ (a.buddy.frames p).meta_pool_idx)
  unfolding frame' frame
  same_mark p = elim (ℕ_discrete p page) [ yes e ↦ rw e (ground arith) | no ne ↦ ground arith ]

  keep-IsChunk : (size j y : ℕ) → IsChunk a.buddy size j y → IsChunk put_back.buddy size j y
  unfolding put_back
  keep-IsChunk size j y c = record {
    above = c.above;
    inside = c.inside;
    pool_page = (same_mark (page_of a.buddy y)).0 ∙ c.pool_page;
    its_pool = (same_mark (page_of a.buddy y)).1 ∙ c.its_pool;
    placed = c.placed;
  }

  count_put :
      (j y : ℕ)
      → count y (lists j)
        ≡ (if j == i && (y == x) then suc (count y (a.free_list j)) else count y (a.free_list j))
  unfolding lists
  count_put j y = elim (ℕ_discrete j i) [ yes e ↦ rw e (ground arith) | no ne ↦ ground arith ]

  was :
      frame.ref_count + count_on a.buddy.mempool_start page (a.free_list i)
      ≡ page_size / a.chunk_size i
  unfolding page frame
  was =
      let acc = (v.accounts (page_of a.buddy x) out.0.inside out.0.pool_page).balance in
      rw out.0.its_pool at acc

  counted : frame'.ref_count + 1 ≡ frame.ref_count
  unfolding frame' frame page
  counted =
      omega (arith, was, IsOut-counted i x v known out, div-le_self page_size (a.chunk_size i))

  pool_of_page : frame.meta_pool_idx ≡ i
  unfolding frame page
  pool_of_page = out.0.its_pool

  put_account : Accounted put_back.buddy a.chunk_size lists page
  unfolding put_back lists page count_on
  put_account =
      let f : update a.buddy.frames page frame' page ≡ frame' = ground arith in
      let m : frame'.meta_pool_idx ≡ i = unfold frame' in pool_of_page in
      record { pool = rw (f, m) known; balance = rw (f, m) (ground (arith, counted, was)) }

  other_lists :
      (p m : ℕ)
      → p ≢ page
      → count_on a.buddy.mempool_start p (lists m)
        ≡ count_on a.buddy.mempool_start p (a.free_list m)
  unfolding lists page count_on
  other_lists p m ne = elim (ℕ_discrete m i) [
    | yes e ↦ rw e (ground arith)
    | no other ↦ ground arith
  ]

  put_accounts :
      (p : ℕ)
      → p < a.buddy.total_page
      → (put_back.buddy.frames p).state ≡ alloc_chunk_pool
      → Accounted put_back.buddy a.chunk_size lists p
  unfolding put_back
  put_accounts p l st = elim (ℕ_discrete p page) [
    | yes e ↦ rw e put_account
    | no ne ↦
        let f : update a.buddy.frames page frame' p ≡ a.buddy.frames p = ground arith in
        let acc = v.accounts p l (rw f at st) in
        record {
          pool = rw f acc.pool;
          balance = rw (f, other_lists p (a.buddy.frames p).meta_pool_idx ne) acc.balance;
        }
  ]

  put_chunks :
      (j y : ℕ)
      → j < pool_count
      → 0 < count y (lists j)
      → IsChunk put_back.buddy (a.chunk_size j) j y
  put_chunks j y l pos = elim (ℕ_discrete j i) [
    | no ne ↦ keep-IsChunk (a.chunk_size j) j y (v.chunks j y l (ground (arith, count_put j y)))
    | yes e ↦ elim (ℕ_discrete y x) [
      | yes here ↦ rw (e, here) (keep-IsChunk (a.chunk_size i) i x out.0)
      | no other ↦
          keep-IsChunk (a.chunk_size j) j y (v.chunks j y l (ground (arith, count_put j y)))
    ]
  ]

  pub put_back-IsValid : IsValid put_back
  unfolding put_back
  put_back-IsValid = record {
    pages =
        counters-IsConsistent a.buddy page frame' (unfold frame' frame in refl)
          (unfold frame' frame in refl) v.pages;
    region = record {
      not_null = v.region.not_null;
      aligned = v.region.aligned;
      holds = v.region.holds;
      no_wrap = v.region.no_wrap;
    };
    sizes = v.sizes;
    chunks = put_chunks;
    once = λ j y l. elim (ℕ_discrete j i) [
      | no ne ↦ ground (arith, count_put j y, v.once j y l)
      | yes e ↦ elim (ℕ_discrete y x) [
        | yes here ↦ ground (arith, count_put j y, rw (← e, ← here) at out.1)
        | no other ↦ ground (arith, count_put j y, v.once j y l)
      ]
    ];
    accounts = put_accounts;
  }

  -- The other chunks that are out stay out, and `x` is not out any more.
  pub put_back-IsOut : (j y : ℕ) → IsOut a j y → y ≢ x → IsOut put_back j y
  unfolding put_back
  put_back-IsOut j y (c, unlisted) ne =
      (keep-IsChunk (a.chunk_size j) j y c, ground (arith, count_put j y, unlisted))

  pub put_back-listed : 0 < count x (put_back.free_list i)
  unfolding put_back
  put_back-listed = ground (arith, count_put i x)
