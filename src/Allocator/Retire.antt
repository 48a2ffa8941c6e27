-- ===== src/Allocator/Retire.antt =====
-- `free` of a chunk, second part: a page with no chunk out goes back to the buddy system.
use native.Mathlib.Decide.{ℕ_discrete}
use mathlib.Core.Path.{subst}
use mathlib.Core.Option.{some-injective}
use bare_metal_os.Base.{
  ℕ, ◌+◌, ◌*◌, ◌≤◌, ◌<◌, ◌≡◌, refl, sym, ap, ◌∙◌, ◌≢◌, inl, inr, true, Option, none, some, List,
  arith, update, count,
}
use bare_metal_os.Config.{page_size}
use bare_metal_os.Buddy.{freed_page, free_pages, Buddy, alloc_page_head, alloc_chunk_pool}
use bare_metal_os.Buddy.InHand.{IsConsistent, IsFree, IsPool}
use bare_metal_os.Buddy.Free.{end_of, free_pages-IsConsistent, free_pages_cases, Released}
use bare_metal_os.Buddy.Remark.{with_frame, single-IsConsistent}
use bare_metal_os.Buddy.RoundTrip.{
  free_pages-SamePool, page_to_addr_lem, freed_page-page_to_addr, IsFree-dec, SamePool,
}
use bare_metal_os.Allocator.{pool_count, off_page, Allocator}
use bare_metal_os.Allocator.Chunks.{count_on, count-off_page, count_on-off_page}
use bare_metal_os.Allocator.Invariant.{page_of, IsOut, IsChunk, Accounted, IsValid}
use bare_metal_os.Allocator.Slots.{IsOut-counted}
use bare_metal_os.Allocator.Expand.{Keeps}

-- Page `p` of pool `i` counts no chunk.
module _ (a : Allocator) (i p : ℕ) (v : IsValid a) (on : a.buddy.ready ≡ true)
    (known : i < pool_count) (inside : p < a.buddy.total_page)
    (chunk_page : (a.buddy.frames p).state ≡ alloc_chunk_pool)
    (its_pool : (a.buddy.frames p).meta_pool_idx ≡ i)
    (unused : (a.buddy.frames p).ref_count ≡ 0) where
  base : ℕ
  base = a.buddy.mempool_start + p * page_size

  headed : Buddy
  headed = with_frame p (record (a.buddy.frames p) { state = alloc_page_head }) a.buddy

  lists : ℕ → List ℕ
  lists = update a.free_list i (off_page base (a.free_list i))

  unfoldable pub retired : Allocator
  unfolding base headed lists
  retired = record a { buddy = free_pages base headed; free_list = lists }

  single : (a.buddy.frames p).order ≡ 0
  single = (v.pages.good p inside (inr (omega arith))).chunk_page chunk_page

  headed-IsConsistent : IsConsistent headed
  unfolding headed
  headed-IsConsistent =
      single-IsConsistent p (record (a.buddy.frames p) { state = alloc_page_head }) inside
        (inr chunk_page, single) (inl refl, single) v.pages

  headed_at : (headed.frames p).state ≡ alloc_page_head
  unfolding headed
  headed_at = ground arith

  headed_end : end_of headed p ≡ p + 1
  unfolding headed
  headed_end = ground (arith, single)

  same : SamePool a.buddy (free_pages base headed)
  unfolding headed
  same =
      let s = free_pages-SamePool base headed in
      record { start = s.start; size = s.size; total = s.total; ready = s.ready }

  found : freed_page base headed ≡ some p
  unfolding headed base
  found =
      let r = v.region in
      let pool : IsPool headed = record {
        not_null = r.not_null;
        aligned = r.aligned;
        holds = r.holds;
        no_wrap = r.no_wrap;
      } in
      rw (← page_to_addr_lem {s = headed} p pool inside)
        (freed_page-page_to_addr p pool on inside headed_at)

  released : Released headed (free_pages base headed) p
  released = elim (free_pages_cases base headed-IsConsistent) [
    | inl (e, _) ↦
        let none' : ◌≡◌ {A = Option ℕ} none (some p) = sym e ∙ found in absurd (ground arith)
    | inr (idx, e, r) ↦
        let at : idx ≡ p = some-injective _ _ (sym e ∙ found) in
        subst (Released headed (free_pages base headed)) at r
  ]

  -- The page is free now, and the other pages of chunks are as they were.
  pub retired_free : IsFree (retired.buddy.frames p).state
  unfolding retired
  retired_free = released.now_free p (omega arith) (omega (arith, headed_end))

  pub retired_start : retired.buddy.mempool_start ≡ a.buddy.mempool_start
  unfolding retired
  retired_start = same.start

  keep_page :
      (q : ℕ)
      → q ≢ p
      → (a.buddy.frames q).state ≡ alloc_chunk_pool
      → retired.buddy.frames q ≡ a.buddy.frames q
  unfolding retired
  keep_page q ne st =
      let h : headed.frames q ≡ a.buddy.frames q = unfold headed in ground arith in
      released.others q (omega (arith, headed_end, ne)) (rw h (ground arith)) ∙ h

  was_page :
      (q : ℕ)
      → (retired.buddy.frames q).state ≡ alloc_chunk_pool
      → ((a.buddy.frames q).state ≡ alloc_chunk_pool) × (q ≢ p)
  unfolding retired
  was_page q st =
      let ne : q ≢ p = λ e. ground (arith, retired_free, rw e at st) in
      let h : headed.frames q ≡ a.buddy.frames q = unfold headed in ground arith in
      (
        elim (IsFree-dec (headed.frames q).state) [
          | inl free' ↦ absurd (ground (arith, released.keep_free q free'))
          | inr busy ↦ rw (← h, ← released.others q (omega (arith, headed_end, ne)) busy) st
        ],
        ne,
      )

  keep-IsChunk :
      (j x : ℕ)
      → IsChunk a.buddy (a.chunk_size j) j x
      → page_of a.buddy x ≢ p
      → IsChunk retired.buddy (a.chunk_size j) j x
  keep-IsChunk j x c ne =
      let e = keep_page (page_of a.buddy x) ne c.pool_page in
      unfold retired in
      rw same.start (record {
        above = c.above;
        inside = rw same.total c.inside;
        pool_page = rw e c.pool_page;
        its_pool = rw e c.its_pool;
        placed = c.placed;
      })

  count_left : (j x : ℕ) → count x (lists j) ≤ count x (a.free_list j)
  unfolding lists
  count_left j x = elim (ℕ_discrete j i) [
    | yes e ↦ rw e (ground (arith, count-off_page base (a.free_list i) x))
    | no ne ↦ ground arith
  ]

  -- What is left on the lists lies on other pages.
  left_elsewhere : (j x : ℕ) → j < pool_count → 0 < count x (lists j) → page_of a.buddy x ≢ p
  unfolding lists base
  left_elsewhere j x l pos e = elim (ℕ_discrete j i) [
    | yes same' ↦
        let listed : 0 < count x (off_page base (a.free_list i)) =
          ground (arith, rw same' at pos) in
        let off = count-off_page base (a.free_list i) x in
        let c = v.chunks i x known (ground arith) in ground (arith, c.above)
    | no other ↦
        let c = v.chunks j x l (ground arith) in
        other (sym c.its_pool ∙ ap (λ q. (a.buddy.frames q).meta_pool_idx) e ∙ its_pool)
  ]

  on_others :
      (q j : ℕ)
      → j < pool_count
      → q ≢ p
      → count_on a.buddy.mempool_start q (lists j)
        ≡ count_on a.buddy.mempool_start q (a.free_list j)
  unfolding lists
  on_others q j l ne = elim (ℕ_discrete j i) [
    | no other ↦ ground arith
    | yes e ↦
        let off =
          count_on-off_page base a.buddy.mempool_start p q (a.free_list i) (unfold base in refl)
            (λ x pos. (v.chunks i x known pos).above) ne in
        rw e (ground (arith, off))
  ]

  retired_accounts :
      (q : ℕ)
      → q < retired.buddy.total_page
      → (retired.buddy.frames q).state ≡ alloc_chunk_pool
      → Accounted retired.buddy a.chunk_size lists q
  retired_accounts q l st =
      let (st', ne) = was_page q st in
      let e = keep_page q ne st' in
      let acc = v.accounts q (unfold retired in omega (arith, same.total, l)) st' in
      record {
        pool = rw e acc.pool;
        balance =
            unfold retired in
            rw (e, same.start, on_others q (a.buddy.frames q).meta_pool_idx acc.pool ne)
              acc.balance;
      }

  -- A chunk that is out lies on another page.
  on_used : (j x : ℕ) → IsOut a j x → page_of a.buddy x ≢ p
  on_used j x o e =
      let its = sym o.0.its_pool ∙ ap (λ q. (a.buddy.frames q).meta_pool_idx) e ∙ its_pool in
      let pos = IsOut-counted j x v (rw its known) o in
      let zero' : (a.buddy.frames (page_of a.buddy x)).ref_count ≡ 0 =
        ap (λ q. (a.buddy.frames q).ref_count) e ∙ unused in
      absurd (omega (arith, pos, zero'))

  pub retired-Keeps : Keeps a retired
  unfolding retired
  retired-Keeps = record {
    valid = record {
      pages = free_pages-IsConsistent base headed-IsConsistent;
      region = record {
        not_null = rw same.start v.region.not_null;
        aligned = rw same.start v.region.aligned;
        holds = rw (same.total, same.size) v.region.holds;
        no_wrap = rw (same.start, same.size) v.region.no_wrap;
      };
      sizes = v.sizes;
      chunks = λ j x l pos.
          keep-IsChunk j x (v.chunks j x l (omega (arith, count_left j x)))
            (left_elsewhere j x l pos);
      once = λ j x l. omega (arith, count_left j x, v.once j x l);
      accounts = retired_accounts;
    };
    out = λ j x o. (keep-IsChunk j x o.0 (on_used j x o), omega (arith, count_left j x, o.1));
    ready = same.ready;
  }
