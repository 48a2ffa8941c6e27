-- ===== src/Allocator/Fresh.antt =====
-- src/allocator.c: a page that is cut into the chunks of a pool, as the state of `expand_chunk_pool`.
use native.Mathlib.Decide.{dec_lt, ℕ_discrete}
use mathlib.Core.Path.{subst}
use native.Mathlib.Nat.{div-mul-le_self, div-add-mod', mod-lt, zero-mod}
use bare_metal_os.Base.{
  ℕ, ◌+◌, ◌-◌, ◌*◌, ◌/◌, ◌%◌, ◌≤◌, ◌<◌, ◌≡◌, refl, ◌≢◌, inl, inr, false, List, [], ◌∷◌, arith, ◌==◌,
  if◌then◌else◌, update, count,
}
use bare_metal_os.Config.{page_size}
use bare_metal_os.Buddy.{Buddy, alloc_chunk_pool}
use bare_metal_os.Buddy.InHand.{IsConsistent, IsPool}
use bare_metal_os.Buddy.Alloc.{Allocated}
use bare_metal_os.Buddy.Remark.{with_frame, single-IsConsistent}
use bare_metal_os.Buddy.RoundTrip.{IsFree-dec, SamePool}
use bare_metal_os.Allocator.{pool_count, add_chunks, pool_frame, is_empty, Allocator}
use bare_metal_os.Allocator.Chunks.{
  hits, count-add_chunks, count_on, count_on-add_chunks, count_on-zero,
}
use bare_metal_os.Allocator.Invariant.{page_of, size_bounds, IsOut, IsChunk, Accounted, IsValid}

first_hit : (n addr size : ℕ) → 0 < n * size → hits n addr size addr ≡ 1
first_hit n addr size pos = let z : addr - addr ≡ 0 = omega arith in rw (z, zero-mod) (ground arith)

not-empty : (l : List ℕ) (x : ℕ) → 0 < count x l → is_empty l ≡ false
not-empty [] x pos = absurd (omega arith)
not-empty (y ∷ l) x pos = refl

-- A new page at index `idx` of the state `b`, cut into chunks of pool `i`.
module _ (a : Allocator) (b : Buddy) (i idx : ℕ) (v : IsValid a) (known : i < pool_count)
    (same : SamePool a.buddy b) (good : IsConsistent b) (fresh : Allocated a.buddy b 0 idx) where
  unfoldable pub page : ℕ
  page = b.mempool_start + idx * page_size

  unfoldable pub size : ℕ
  size = a.chunk_size i

  unfoldable pub n : ℕ
  n = page_size / size

  unfoldable pub lists : ℕ → List ℕ
  lists = update a.free_list i (add_chunks n page size (a.free_list i))

  unfoldable pub expanded : Buddy
  expanded = with_frame idx (pool_frame i (b.frames idx)) b

  in_pool : idx < b.total_page
  in_pool = omega (arith, fresh.inside, same.total)

  pool : IsPool b
  pool = record {
    not_null = rw same.start v.region.not_null;
    aligned = rw same.start v.region.aligned;
    holds = rw (same.total, same.size) v.region.holds;
    no_wrap = rw (same.start, same.size) v.region.no_wrap;
  }

  expanded-IsConsistent : IsConsistent expanded
  unfolding expanded
  expanded-IsConsistent =
      single-IsConsistent idx (pool_frame i (b.frames idx)) in_pool
        (inl fresh.head, fresh.order_set) (inr refl, refl) good

  was_not_chunk : (a.buddy.frames idx).state ≢ alloc_chunk_pool
  was_not_chunk e = ground (arith, fresh.was_free idx)

  -- Chunks that there were stay as they are.
  old_page :
      (p : ℕ)
      → (a.buddy.frames p).state ≡ alloc_chunk_pool
      → (expanded.frames p ≡ a.buddy.frames p) × (p ≢ idx)
  unfolding expanded
  old_page p e =
      let ne : p ≢ idx = λ here. was_not_chunk (rw here at e) in
      (ground (arith, fresh.others p), ne)

  old-IsChunk :
      (j x : ℕ)
      → IsChunk a.buddy (a.chunk_size j) j x
      → IsChunk expanded (a.chunk_size j) j x × (page_of b x ≢ idx)
  unfolding expanded
  old-IsChunk j x c =
      let (e, ne) = old_page (page_of a.buddy x) c.pool_page in
      (
        rw same.start (record {
          above = c.above;
          inside = rw same.total c.inside;
          pool_page = rw e c.pool_page;
          its_pool = rw e c.its_pool;
          placed = c.placed;
        }),
        rw same.start ne,
      )

  hits-le : (n addr size x : ℕ) → hits n addr size x ≤ 1
  hits-le n addr size x = ground arith

  size_pos : 0 < size
  unfolding size
  size_pos = omega (arith, size_bounds i v.sizes known)

  room : n * size ≤ page_size
  unfolding n
  room = div-mul-le_self page_size size

  -- A new chunk is one of pool `i`, on the new page.
  new-IsChunk : (x : ℕ) → 0 < hits n page size x → IsChunk expanded size i x × (page_of b x ≡ idx)
  unfolding expanded page
  new-IsChunk x hit =
      let lo : page ≤ x = unfold page in ground arith in
      let hi : x < page + n * size = unfold page in ground arith in
      let here : page_of b x ≡ idx = unfold page in omega (arith, room, lo, hi) in
      let offset : x % page_size ≡ x - page =
        unfold page in omega (arith, pool.aligned, room, lo, hi) in
      (
        record {
          above = unfold page in omega (arith, lo);
          inside = rw here in_pool;
          pool_page = rw here (ground arith);
          its_pool = rw here (ground arith);
          placed = rw offset (unfold page in ground arith);
        },
        here,
      )

  count_new : (x : ℕ) → count x (lists i) ≡ hits n page size x + count x (a.free_list i)
  unfolding lists
  count_new x = ground (arith, count-add_chunks n page size (a.free_list i) x size_pos)

  expanded_chunks :
      (j x : ℕ) → j < pool_count → 0 < count x (lists j) → IsChunk expanded (a.chunk_size j) j x
  unfolding lists size
  expanded_chunks j x l pos = elim (ℕ_discrete j i) [
    | no ne ↦ (old-IsChunk j x (v.chunks j x l (ground arith))).0
    | yes e ↦ elim (dec_lt 0 (hits n page size x)) [
      | yes hit ↦ rw e (new-IsChunk x hit).0
      | no miss ↦
          rw e
            (old-IsChunk i x (
              v.chunks i x known
                (omega (arith, count_new x, subst (λ k. 0 < count x (lists k)) e pos)))).0
    ]
  ]

  expanded_once : (j x : ℕ) → j < pool_count → count x (lists j) ≤ 1
  unfolding lists
  expanded_once j x l = elim (ℕ_discrete j i) [
    | no ne ↦ ground (arith, v.once j x l)
    | yes e ↦ rw e (elim (dec_lt 0 (hits n page size x)) [
      | no miss ↦ omega (arith, count_new x, v.once i x known)
      | yes hit ↦ elim (dec_lt 0 (count x (a.free_list i))) [
        | no none' ↦ omega (arith, count_new x, hits-le n page size x)
        | yes old ↦ absurd ((old-IsChunk i x (v.chunks i x known old)).1 (new-IsChunk x hit).1)
      ]
    ])
  ]

  pub new-IsOut :
      (j x : ℕ) → IsOut a j x → IsOut (record a { buddy = expanded; free_list = lists }) j x
  unfolding lists
  new-IsOut j x (c, unlisted) =
      let (c', ne) = old-IsChunk j x c in
      (
        c',
        elim (ℕ_discrete j i) [
          | no other ↦ ground arith
          | yes e ↦ rw e (elim (dec_lt 0 (hits n page size x)) [
            | yes hit ↦ absurd (ne (new-IsChunk x hit).1)
            | no miss ↦ omega (arith, count_new x, rw e at unlisted)
          ])
        ],
      )

  none_old : count_on b.mempool_start idx (a.free_list i) ≡ 0
  none_old =
      count_on-zero b.mempool_start idx (a.free_list i)
        (λ x pos. (old-IsChunk i x (v.chunks i x known pos)).1)

  on_new :
      (p : ℕ)
      → count_on b.mempool_start p (lists i)
        ≡ (if p == idx then n else 0) + count_on b.mempool_start p (a.free_list i)
  unfolding lists page
  on_new p = ground (
    arith,
    count_on-add_chunks n page size b.mempool_start idx p (a.free_list i) size_pos
        (unfold page in omega arith) (unfold page in omega (arith, room)),
  )

  new_account : Accounted expanded a.chunk_size lists idx
  unfolding expanded
  new_account =
      let m : (expanded.frames idx).meta_pool_idx ≡ i = ground arith in
      let r : (expanded.frames idx).ref_count ≡ 0 = ground arith in
      record {
        pool = rw m known;
        balance = rw (r, m) (unfold n size in ground (arith, on_new idx, none_old));
      }

  other_lists :
      (p m : ℕ)
      → p ≢ idx
      → count_on b.mempool_start p (lists m) ≡ count_on a.buddy.mempool_start p (a.free_list m)
  unfolding lists
  other_lists p m ne = elim (ℕ_discrete m i) [
    | yes e ↦ rw (e, ← same.start) (ground (arith, on_new p))
    | no other ↦ rw same.start (ground arith)
  ]

  -- The other pool pages were pool pages before.
  still : (p : ℕ) → p ≢ idx → (b.frames p).state ≡ alloc_chunk_pool → b.frames p ≡ a.buddy.frames p
  still p ne st = elim (IsFree-dec (a.buddy.frames p).state) [
    | inr busy ↦ fresh.others p busy
    | inl free' ↦ absurd (ground (arith, fresh.keep_free p (ground arith) free'))
  ]

  expanded_accounts :
      (p : ℕ)
      → p < b.total_page
      → (expanded.frames p).state ≡ alloc_chunk_pool
      → Accounted expanded a.chunk_size lists p
  unfolding expanded
  expanded_accounts p l st = elim (ℕ_discrete p idx) [
    | yes e ↦ rw e new_account
    | no ne ↦
        let st' : (b.frames p).state ≡ alloc_chunk_pool = ground arith in
        let e : b.frames p ≡ a.buddy.frames p = still p ne st' in
        let e' : expanded.frames p ≡ a.buddy.frames p = ground (arith, e) in
        let acc = v.accounts p (omega (arith, same.total)) (rw (← e) st') in
        record {
          pool = rw e' acc.pool;
          balance = rw (e', other_lists p (a.buddy.frames p).meta_pool_idx ne) acc.balance;
        }
  ]

  pub new-IsValid : IsValid (record a { buddy = expanded; free_list = lists })
  unfolding expanded
  new-IsValid = record {
    pages = expanded-IsConsistent;
    region = record {
      not_null = pool.not_null;
      aligned = pool.aligned;
      holds = pool.holds;
      no_wrap = pool.no_wrap;
    };
    sizes = v.sizes;
    chunks = expanded_chunks;
    once = expanded_once;
    accounts = expanded_accounts;
  }

  small_size : size ≤ 2048
  unfolding size
  small_size = (size_bounds i v.sizes known).1

  pub nonempty : is_empty (lists i) ≡ false
  unfolding n
  nonempty =
      let some_room : 0 < n * size = omega (
        arith,
        div-add-mod' page_size size,
        mod-lt page_size size_pos,
        size_bounds i v.sizes known,
        small_size,
      ) in
      let first : hits n page size page ≡ 1 = first_hit n page size some_room in
      not-empty (lists i) page (omega (arith, count_new page, first))
