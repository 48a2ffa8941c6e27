-- ===== src/Allocator/FreeChunk.antt =====
-- `free` of a chunk that is out: its two parts together.
use native.Mathlib.Decide.{ℕ_discrete}
use mathlib.Core.Path.{fun_ext, ap₂}
use bare_metal_os.Base.{
  ℕ, ◌+◌, ◌-◌, ◌*◌, ◌%◌, ◌≤◌, ◌<◌, ◌≡◌, refl, sym, ◌∙◌, ◌≢◌, inl, inr, true, false, ◌∷◌, arith,
  ◌==◌, Bool-cases, update,
}
use bare_metal_os.Base.Words.{word_mod, dec32}
use bare_metal_os.Config.{page_size}
use bare_metal_os.Align.{align_down_ul, align_down_ul_lem}
use bare_metal_os.Buddy.{free_pages, Buddy, alloc_page_head, alloc_chunk_pool}
use bare_metal_os.Buddy.InHand.{IsFree, IsPool}
use bare_metal_os.Allocator.{pool_count, off_page, free_chunk, Allocator}
use bare_metal_os.Allocator.Invariant.{page_of, IsOut, IsValid}
use bare_metal_os.Allocator.PutBack.{put_back, put_back-IsValid, put_back-IsOut, put_back-listed}
use bare_metal_os.Allocator.Retire.{retired, retired_free, retired_start, retired-Keeps}

-- A state in which the invariant holds and every chunk but `x` that was out is out.
pub record Freed (a a' : Allocator) (x : ℕ) : Type 0 where
  pub valid : IsValid a'
  pub out : (j y : ℕ) → IsOut a j y → y ≢ x → IsOut a' j y

-- Two writes to one entry, the second of which reads the first.
update-update :
    {A : Type 0} (f : ℕ → A) (p : ℕ) (x : A) (g : A → A)
    → update (update f p x) p (g (update f p x p)) ≡ update f p (g x)
update-update f p x g =
    fun_ext λ j. elim (ℕ_discrete j p) [ yes e ↦ rw e (ground arith) | no ne ↦ ground arith ]

-- The address in the pool of the page on which a chunk lies.
pub base_lem :
    {b : Buddy} (x : ℕ)
    → IsPool b
    → b.mempool_start ≤ x
    → x < word_mod
    → align_down_ul x page_size ≡ b.mempool_start + page_of b x * page_size
base_lem {b} x pool above small =
    let down : align_down_ul x page_size ≡ x - x % page_size =
      align_down_ul_lem 12 52 x (omega arith) small in
    rw down (omega (arith, above, pool.aligned))

-- After `free` of a chunk: it is not out, and its page is no block that is out either.
pub record Back (a : Allocator) (x : ℕ) : Type 0 where
  pub not_out : (j : ℕ) → ¬ IsOut a j x
  pub not_head : (a.buddy.frames (page_of a.buddy x)).state ≢ alloc_page_head

module _ (a : Allocator) (i x : ℕ) (v : IsValid a) (on : a.buddy.ready ≡ true)
    (known : i < pool_count) (o : IsOut a i x) where
  abbrev page : ℕ
  page = page_of a.buddy x

  abbrev base : ℕ
  base = a.buddy.mempool_start + page * page_size

  -- A page that is not given back.
  free_chunk-kept :
      (dec32 (a.buddy.frames page).ref_count == 0) ≡ false
      → free_chunk x page base i a ≡ put_back a i x v known o
  unfolding free_chunk put_back
  free_chunk-kept e = rw e refl

  -- The state once the chunk is on its list, whose page counts none.
  module _ (e : (dec32 (a.buddy.frames page).ref_count == 0) ≡ true) where
    all_back : Allocator
    all_back = put_back a i x v known o

    back_page : (all_back.buddy.frames page).ref_count ≡ 0
    unfolding all_back put_back
    back_page = ground (arith, e)

    out_page : (all_back.buddy.frames page).state ≡ alloc_chunk_pool
    unfolding all_back put_back
    out_page = ground (arith, o.0.pool_page)

    out_pool : (all_back.buddy.frames page).meta_pool_idx ≡ i
    unfolding all_back put_back
    out_pool = ground (arith, o.0.its_pool)

    inside : page < all_back.buddy.total_page
    unfolding all_back put_back
    inside = o.0.inside

    back_on : all_back.buddy.ready ≡ true
    unfolding all_back put_back
    back_on = on

    back-IsValid : IsValid all_back
    unfolding all_back
    back-IsValid = put_back-IsValid a i x v known o

    gone : Allocator
    gone = retired all_back i page back-IsValid back_on known inside out_page out_pool back_page

    free_chunk-retired : free_chunk x page base i a ≡ gone
    unfolding free_chunk gone all_back retired put_back
    free_chunk-retired =
        let f = record (a.buddy.frames page) {
          ref_count = dec32 (a.buddy.frames page).ref_count;
        } in
        rw e (
          ap₂
            (λ fs l. record a {
              buddy = free_pages base (record a.buddy { frames = fs });
              free_list = l;
            })
            (sym
              (update-update a.buddy.frames page f (λ f'. record f' { state = alloc_page_head })))
            (sym (update-update a.free_list i (x ∷ a.free_list i) (off_page base))))

    gone-Freed : Freed a gone x
    unfolding gone
    gone-Freed =
        let k =
          retired-Keeps all_back i page back-IsValid back_on known inside out_page out_pool
            back_page in
        record {
          valid = k.valid;
          out =
              λ j y oy ne. k.out j y (unfold all_back in put_back-IsOut a i x v known o j y oy ne);
        }

    gone-Back : Back gone x
    gone-Back =
        let r =
          retired_free all_back i page back-IsValid back_on known inside out_page out_pool
            back_page in
        let start =
          retired_start all_back i page back-IsValid back_on known inside out_page out_pool
            back_page in
        let same : page_of gone.buddy x ≡ page =
          unfold gone in rw start (unfold all_back put_back in refl) in
        let free' : IsFree (gone.buddy.frames (page_of gone.buddy x)).state =
          rw same (unfold gone in r) in
        record {
          not_out = λ j o'. ground (arith, o'.0.pool_page, free');
          not_head = λ h. ground arith;
        }

  kept-Back : Back (put_back a i x v known o) x
  kept-Back =
      let pb = put_back a i x v known o in
      let st : (pb.buddy.frames (page_of pb.buddy x)).state ≡ alloc_chunk_pool =
        unfold put_back in ground (arith, o.0.pool_page) in
      let its : (pb.buddy.frames (page_of pb.buddy x)).meta_pool_idx ≡ i =
        unfold put_back in ground (arith, o.0.its_pool) in
      record {
        not_out = λ j o'.
            let same : j ≡ i = sym o'.0.its_pool ∙ its in
            let unlisted = rw same at o'.1 in
            absurd (omega (arith, put_back-listed a i x v known o));
        not_head = λ h. ground arith;
      }

  pub free_chunk-Back : Back (free_chunk x page base i a) x
  free_chunk-Back = elim (Bool-cases (dec32 (a.buddy.frames page).ref_count == 0)) [
    | inr kept ↦ rw (free_chunk-kept kept) kept-Back
    | inl e ↦ rw (free_chunk-retired e) (gone-Back e)
  ]

  pub free_chunk-Freed : Freed a (free_chunk x page base i a) x
  free_chunk-Freed = elim (Bool-cases (dec32 (a.buddy.frames page).ref_count == 0)) [
    | inr kept ↦
        rw (free_chunk-kept kept) (record {
          valid = put_back-IsValid a i x v known o;
          out = put_back-IsOut a i x v known o;
        })
    | inl e ↦ rw (free_chunk-retired e) (gone-Freed e)
  ]
