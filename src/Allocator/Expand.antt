-- ===== src/Allocator/Expand.antt =====
-- src/allocator.c: `expand_chunk_pool` keeps the invariant.
use bare_metal_os.Base.{
  ℕ, ◌+◌, ◌*◌, ◌≤◌, ◌<◌, ◌≡◌, refl, sym, ap, ◌∙◌, ◌⊎◌, inl, inr, true, false, none, some, [], arith,
  ◌==◌,
}
use bare_metal_os.Config.{page_size, max_order}
use bare_metal_os.Buddy.{page_to_addr, alloc_pages}
use bare_metal_os.Buddy.InHand.{IsConsistent}
use bare_metal_os.Buddy.Alloc.{alloc_pages-IsConsistent, alloc_pages_lem, Allocated}
use bare_metal_os.Buddy.RoundTrip.{alloc_pages-SamePool, page_to_addr_lem, SamePool}
use bare_metal_os.Allocator.{pool_count, addr_to_page_idx, expand_chunk_pool, is_empty, Allocator}
use bare_metal_os.Allocator.Invariant.{IsOut, IsValid}
use bare_metal_os.Allocator.Fresh.{page, size, n, lists, expanded, new-IsOut, new-IsValid, nonempty}

-- What the code computes is the state above.
expand_fresh :
    (a : Allocator) (i idx : ℕ) (v : IsValid a) (known : i < pool_count)
    (same : SamePool a.buddy (alloc_pages 0 a.buddy).1)
    (good : IsConsistent (alloc_pages 0 a.buddy).1)
    (fresh : Allocated a.buddy (alloc_pages 0 a.buddy).1 0 idx)
    → (alloc_pages 0 a.buddy).0 ≡ page_to_addr a.buddy idx
    → expand_chunk_pool i a
      ≡ some (record a {
        buddy = expanded a (alloc_pages 0 a.buddy).1 i idx v known same good fresh;
        free_list = lists a (alloc_pages 0 a.buddy).1 i idx v known same good fresh;
      })
unfolding expand_chunk_pool expanded lists n page size
expand_fresh a i idx v known same good fresh at =
    let b = (alloc_pages 0 a.buddy).1 in
    let here : (alloc_pages 0 a.buddy).0 ≡ b.mempool_start + idx * page_size =
      at
      ∙ page_to_addr_lem idx v.region (omega (arith, fresh.inside))
      ∙ ap (λ s. s + idx * page_size) (sym same.start) in
    let index : addr_to_page_idx (b.mempool_start + idx * page_size) b ≡ idx =
      unfold addr_to_page_idx in
      omega (arith, v.region.no_wrap, v.region.holds, fresh.inside, same.start) in
    let live : ((b.mempool_start + idx * page_size) == 0) ≡ false =
      ground (arith, same.start, v.region.not_null) in
    rw (here, index, live)

-- What a step of the allocator promises: the invariant, the chunks that are out stay out, and the
-- buddy system stays on.
pub record Keeps (a a' : Allocator) : Type 0 where
  pub valid : IsValid a'
  pub out : (j x : ℕ) → IsOut a j x → IsOut a' j x
  pub ready : a'.buddy.ready ≡ a.buddy.ready

-- `expand_chunk_pool` fails only if no list of the buddy system has a block; else it keeps the
-- invariant and leaves a chunk on the list.
pub expand_chunk_pool_lem :
    (i : ℕ) {a : Allocator}
    → IsValid a
    → a.buddy.ready ≡ true
    → i < pool_count
    → ((expand_chunk_pool i a ≡ none) × ((k : ℕ) → k ≤ max_order → a.buddy.free_area k ≡ []))
      ⊎ ((a' : Allocator) × (expand_chunk_pool i a ≡ some a')
          × Keeps a a'
          × (is_empty (a'.free_list i) ≡ false))
expand_chunk_pool_lem i {a} v on known = elim (alloc_pages_lem 0 v.pages on (omega arith)) [
  | inl (null, same', empty) ↦
      inl (unfold expand_chunk_pool in rw null refl, λ k small. empty k (omega arith) small)
  | inr (idx, at, fresh) ↦
      let same = alloc_pages-SamePool 0 a.buddy in
      let good = alloc_pages-IsConsistent 0 v.pages in
      let b = (alloc_pages 0 a.buddy).1 in
      inr (
        _,
        expand_fresh a i idx v known same good fresh at,
        record {
          valid = new-IsValid a b i idx v known same good fresh;
          out = new-IsOut a b i idx v known same good fresh;
          ready = unfold expanded in same.ready;
        },
        nonempty a b i idx v known same good fresh,
      )
]
