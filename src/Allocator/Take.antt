-- ===== src/Allocator/Take.antt =====
-- `allocate_chunk`: taking a chunk off its list.
use native.Mathlib.Decide.{dec_lt, ℕ_discrete}
use native.Mathlib.Nat.{div-le_self}
use bare_metal_os.Base.{
  ℕ, ◌+◌, ◌/◌, ◌≤◌, ◌<◌, ◌≡◌, refl, sym, ap, ◌∙◌, ◌≢◌, false, List, [], ◌∷◌, arith, update, count,
}
use bare_metal_os.Base.Words.{inc32}
use bare_metal_os.Config.{page_size}
use bare_metal_os.Buddy.{Frame, alloc_chunk_pool}
use bare_metal_os.Buddy.Remark.{with_frame, counters-IsConsistent}
use bare_metal_os.Allocator.{pool_count, take_chunk, is_empty, Allocator}
use bare_metal_os.Allocator.Chunks.{count_on}
use bare_metal_os.Allocator.Invariant.{
  page_of, addr_to_page_idx_lem, IsChunk-small, IsOut, IsChunk, Accounted, IsValid,
}
use bare_metal_os.Allocator.Expand.{Keeps}

-- What is known of a chunk that is handed out: it is one of pool `i`, on no free list, and its page
-- counts it.
pub record Handed (a : Allocator) (i ck : ℕ) : Type 0 where
  pub chunk : IsChunk a.buddy (a.chunk_size i) i ck
  pub not_listed : (j : ℕ) → j < pool_count → count ck (a.free_list j) ≡ 0
  pub counted : 0 < (a.buddy.frames (page_of a.buddy ck)).ref_count

-- The chunk `ck` is the first of list `i`.
module _ (a : Allocator) (i ck : ℕ) (rest : List ℕ) (v : IsValid a) (known : i < pool_count)
    (first : a.free_list i ≡ ck ∷ rest) where
  page : ℕ
  page = page_of a.buddy ck

  frame : Frame
  frame = a.buddy.frames page

  counted_frame : Frame
  counted_frame = record frame { ref_count = inc32 frame.ref_count }

  lists : ℕ → List ℕ
  lists = update a.free_list i rest

  taken : Allocator
  taken = record a { buddy = with_frame page counted_frame a.buddy; free_list = lists }

  chunk : IsChunk a.buddy (a.chunk_size i) i ck
  chunk = v.chunks i ck known (rw first (ground arith))

  same_mark :
      (p : ℕ)
      → ((update a.buddy.frames page counted_frame p).state ≡ (a.buddy.frames p).state)
        × ((update a.buddy.frames page counted_frame p).meta_pool_idx
            ≡ (a.buddy.frames p).meta_pool_idx)
  unfolding counted_frame frame
  same_mark p = elim (ℕ_discrete p page) [ yes e ↦ rw e (ground arith) | no ne ↦ ground arith ]

  keep-IsChunk : (size j x : ℕ) → IsChunk a.buddy size j x → IsChunk taken.buddy size j x
  unfolding taken
  keep-IsChunk size j x c = record {
    above = c.above;
    inside = c.inside;
    pool_page = (same_mark (page_of a.buddy x)).0 ∙ c.pool_page;
    its_pool = (same_mark (page_of a.buddy x)).1 ∙ c.its_pool;
    placed = c.placed;
  }

  fewer : (j x : ℕ) → count x (lists j) ≤ count x (a.free_list j)
  unfolding lists
  fewer j x = elim (ℕ_discrete j i) [ yes e ↦ rw (e, first) (ground arith) | no ne ↦ ground arith ]

  account : Accounted a.buddy a.chunk_size a.free_list page
  unfolding page
  account = v.accounts page chunk.inside chunk.pool_page

  pool_of_page : frame.meta_pool_idx ≡ i
  unfolding frame page
  pool_of_page = chunk.its_pool

  was :
      frame.ref_count + (count_on a.buddy.mempool_start page rest + 1) ≡ page_size / a.chunk_size i
  unfolding page frame count_on
  was =
      let e = account.balance in
      let e' : (a.buddy.frames page).ref_count + count_on a.buddy.mempool_start page (ck ∷ rest)
          ≡ page_size / a.chunk_size i =
        rw (chunk.its_pool, first) at e in
      ground (arith, e')

  counted : counted_frame.ref_count ≡ frame.ref_count + 1
  unfolding counted_frame
  counted = omega (arith, was, div-le_self page_size (a.chunk_size i))

  taken_account : Accounted taken.buddy a.chunk_size lists page
  unfolding taken lists
  taken_account =
      let f : update a.buddy.frames page counted_frame page ≡ counted_frame = ground arith in
      let m : counted_frame.meta_pool_idx ≡ i = unfold counted_frame in pool_of_page in
      record { pool = rw (f, m) known; balance = rw (f, m) (ground (arith, counted, was)) }

  other_lists :
      (p m : ℕ)
      → p ≢ page
      → count_on a.buddy.mempool_start p (lists m)
        ≡ count_on a.buddy.mempool_start p (a.free_list m)
  unfolding lists page count_on
  other_lists p m ne = elim (ℕ_discrete m i) [
    | yes e ↦ rw (e, first) (ground arith)
    | no other ↦ ground arith
  ]

  taken_accounts :
      (p : ℕ)
      → p < a.buddy.total_page
      → (taken.buddy.frames p).state ≡ alloc_chunk_pool
      → Accounted taken.buddy a.chunk_size lists p
  unfolding taken
  taken_accounts p l st = elim (ℕ_discrete p page) [
    | yes e ↦ rw e taken_account
    | no ne ↦
        let f : update a.buddy.frames page counted_frame p ≡ a.buddy.frames p = ground arith in
        let acc = v.accounts p l (rw f at st) in
        record {
          pool = rw f acc.pool;
          balance = rw (f, other_lists p (a.buddy.frames p).meta_pool_idx ne) acc.balance;
        }
  ]

  taken-IsValid : IsValid taken
  unfolding taken
  taken-IsValid = record {
    pages =
        counters-IsConsistent a.buddy page counted_frame (unfold counted_frame frame in refl)
          (unfold counted_frame frame in refl) v.pages;
    region = record {
      not_null = v.region.not_null;
      aligned = v.region.aligned;
      holds = v.region.holds;
      no_wrap = v.region.no_wrap;
    };
    sizes = v.sizes;
    chunks =
        λ j x l pos. keep-IsChunk (a.chunk_size j) j x (v.chunks j x l (omega (arith, fewer j x)));
    once = λ j x l. omega (arith, fewer j x, v.once j x l);
    accounts = taken_accounts;
  }

  not_listed' : (j : ℕ) → j < pool_count → count ck (lists j) ≡ 0
  unfolding lists
  not_listed' j l = elim (ℕ_discrete j i) [
    | yes e ↦ rw e (ground (arith, rw first at (v.once i ck known)))
    | no ne ↦ elim (dec_lt 0 (count ck (a.free_list j))) [
      | no none' ↦ ground arith
      | yes pos ↦ absurd (ne (sym (v.chunks j ck l pos).its_pool ∙ chunk.its_pool))
    ]
  ]

  taken-Handed : Handed taken i ck
  unfolding taken
  taken-Handed = record {
    chunk = keep-IsChunk (a.chunk_size i) i ck chunk;
    not_listed = not_listed';
    counted = unfold page in ground (arith, counted);
  }

  taken-IsOut : (j x : ℕ) → IsOut a j x → IsOut taken j x × (x ≢ ck)
  unfolding taken
  taken-IsOut j x (c, unlisted) = (
    (keep-IsChunk (a.chunk_size j) j x c, omega (arith, fewer j x, unlisted)),
    λ e. absurd (omega (arith, was_listed j x c e)),
  )
    where
      was_listed :
          (j x : ℕ) → IsChunk a.buddy (a.chunk_size j) j x → x ≡ ck → 0 < count x (a.free_list j)
      was_listed j x c e =
          let same : j ≡ i =
            sym c.its_pool
            ∙ ap (λ y. (a.buddy.frames (page_of a.buddy y)).meta_pool_idx) e
            ∙ chunk.its_pool in
          rw (same, e, first) (ground arith)

  take_first : take_chunk i a ≡ (ck, taken)
  unfolding take_chunk taken lists counted_frame frame page
  take_first = rw (
    first,
    take_chunk,
    addr_to_page_idx_lem ck v.region chunk.above (IsChunk-small v.region chunk),
  )

-- Taking a chunk off a list that has one.
pub take_chunk_lem :
    (i : ℕ) {a : Allocator}
    → IsValid a
    → i < pool_count
    → is_empty (a.free_list i) ≡ false
    → let (ck, a') = take_chunk i a in
      Keeps a a' × Handed a' i ck × ((j x : ℕ) → IsOut a j x → x ≢ ck)
take_chunk_lem i {a} v known some' = go (a.free_list i) refl
  where
    go :
        (l : List ℕ)
        → a.free_list i ≡ l
        → let (ck, a') = take_chunk i a in
          Keeps a a' × Handed a' i ck × ((j x : ℕ) → IsOut a j x → x ≢ ck)
    go [] e = absurd (ground (arith, rw e at some'))
    go (ck ∷ rest) e = rw (take_first a i ck rest v known e) (
      record {
        valid = taken-IsValid a i ck rest v known e;
        out = λ j x o. (taken-IsOut a i ck rest v known e j x o).0;
        ready = unfold taken in refl;
      },
      taken-Handed a i ck rest v known e,
      λ j x o. (taken-IsOut a i ck rest v known e j x o).1,
    )
