-- ===== src/Startup/Place.antt =====
-- The place that is found is free, and the search ends.
use mathlib.Core.Option.{some-injective}
use bare_metal_os.Base.{
  ℕ, zero, suc, ◌+◌, ◌%◌, ◌≤◌, ◌<◌, ◌≡◌, refl, ◌⊎◌, inl, inr, ◌&&◌, ◌||◌, Option, none, some, List,
  [], ◌∷◌, ◌++◌, arith, ltb, leb, ◌==◌, if◌then◌else◌, Bool-cases, Option-cases, length,
}
use bare_metal_os.Base.Words.{word_mod, add64}
use bare_metal_os.Config.{page_size}
use bare_metal_os.Align.{align_up_ul, align_up_ul_lem}
use bare_metal_os.Buddy.{Buddy}
use bare_metal_os.Startup.{
  max_reserved_regions, clipped, memory_reserve, first_overlap, find_place, place_frames, Reserved,
}

-- Every region ends below `top`.
abbrev pub Below : ℕ → List Reserved → Type 0
Below top [] = Unit
Below top (r ∷ rgns) = (r.start + r.size ≤ top) × Below top rgns

-- No region meets a range.
abbrev pub Clear : ℕ → ℕ → List Reserved → Type 0
Clear lo hi [] = Unit
Clear lo hi (r ∷ rgns) = ((r.start + r.size ≤ lo) ⊎ (hi ≤ r.start)) × Clear lo hi rgns

-- How many regions end behind `a`.
behind : ℕ → List Reserved → ℕ
behind a [] = 0
behind a (r ∷ rgns) =
    let rest = behind a rgns in if ltb a (r.start + r.size) then suc rest else rest

behind_mono : (a a' : ℕ) (rgns : List Reserved) → a ≤ a' → behind a' rgns ≤ behind a rgns
unfolding behind
behind_mono a a' [] le = omega arith
behind_mono a a' (r ∷ rgns) le = ground (arith, behind_mono a a' rgns le)

behind-length : (a : ℕ) (rgns : List Reserved) → behind a rgns ≤ length rgns
unfolding behind
behind-length a [] = omega arith
behind-length a (r ∷ rgns) = ground (arith, behind-length a rgns)

module _ (top : ℕ) (bound : top < word_mod) where
  first_overlap-none :
      (a e : ℕ) (rgns : List Reserved)
      → Below top rgns
      → first_overlap a e rgns ≡ none
      → Clear a e rgns
  unfolding first_overlap
  first_overlap-none a e [] low miss = tt
  first_overlap-none a e (r ∷ rgns) (le, low) miss =
      let plain : add64 r.start r.size ≡ r.start + r.size = omega arith in
      elim (Bool-cases (ltb a (r.start + r.size) && ltb r.start e)) [
        | inl hit ↦
            let found : ◌≡◌ {A = Option ℕ} (some (r.start + r.size)) none =
              rw (first_overlap, plain, hit) at miss in
            absurd (ground arith)
        | inr off ↦
            (ground arith, first_overlap-none a e rgns low (rw (first_overlap, plain, off) at miss))
      ]

  first_overlap-some :
      (a e : ℕ) (rgns : List Reserved) {r_end : ℕ}
      → Below top rgns
      → first_overlap a e rgns ≡ some r_end
      → (a < r_end) × (r_end ≤ top) × (behind r_end rgns < behind a rgns)
  unfolding first_overlap behind
  first_overlap-some a e [] low hit = absurd (ground arith)
  first_overlap-some a e (r ∷ rgns) {r_end} (le, low) hit =
      let plain : add64 r.start r.size ≡ r.start + r.size = omega arith in
      elim (Bool-cases (ltb a (r.start + r.size) && ltb r.start e)) [
        | inl here ↦
            let found : ◌≡◌ {A = Option ℕ} (some (r.start + r.size)) (some r_end) =
              rw (first_overlap, plain, here) at hit in
            let at : r.start + r.size ≡ r_end = some-injective _ _ found in
            let past : a < r_end = ground arith in
            (past, omega arith, ground (arith, behind_mono a r_end rgns (omega arith)))
        | inr off ↦
            let (past, in_pool, fewer) =
              first_overlap-some a e rgns low (rw (first_overlap, plain, off) at hit) in
            (past, in_pool, ground arith)
      ]

-- The search in a pool that ends at `top`, for `size` bytes.
module _ (top size : ℕ) (bound : top + size + page_size ≤ word_mod) where
  aligned_lem :
      (a : ℕ)
      → a ≤ top
      → let p = align_up_ul a page_size in (p % page_size ≡ 0) × (a ≤ p) × (add64 p size ≡ p + size)
  aligned_lem a le =
      let (al, lo, hi) = align_up_ul_lem 12 52 a (omega arith) (omega (arith, le, bound)) in
      (al, lo, omega (arith, hi, le, bound))

  find_place-Clear :
      (fuel a : ℕ) (rgns : List Reserved) {p : ℕ}
      → Below top rgns
      → a ≤ top
      → find_place fuel a size top rgns ≡ some p
      → (p % page_size ≡ 0) × (a ≤ p) × (p + size ≤ top) × Clear p (p + size) rgns
  unfolding find_place
  find_place-Clear zero a rgns low le found = absurd (ground arith)
  find_place-Clear (suc fuel) a rgns {p} low le found =
      let q = align_up_ul a page_size in
      let (al, lo, plain) = aligned_lem a le in
      elim (Bool-cases (ltb top (q + size))) [
        | inl full ↦
            let e : ◌≡◌ {A = Option ℕ} none (some p) = rw (find_place, plain, full) at found in
            absurd (ground arith)
        | inr room ↦ elim (Option-cases (first_overlap q (q + size) rgns)) [
          | inl free ↦
              let e : ◌≡◌ {A = Option ℕ} (some q) (some p) =
                rw (find_place, plain, room, free) at found in
              let at : q ≡ p = some-injective _ _ e in
              let clear = first_overlap-none top (omega arith) q (q + size) rgns low free in
              rw (← at) (al, lo, ground arith, clear)
          | inr (r_end, meets) ↦
              let (past, in_pool, fewer) =
                first_overlap-some top (omega arith) q (q + size) rgns low meets in
              let (al', lo', hi', clear) =
                find_place-Clear fuel r_end rgns low in_pool
                  (rw (find_place, plain, room, meets) at found) in
              (al', omega arith, hi', clear)
        ]
      ]

  find_place-fuel :
      (m n a : ℕ) (rgns : List Reserved)
      → Below top rgns
      → a ≤ top
      → behind a rgns < m
      → behind a rgns < n
      → find_place m a size top rgns ≡ find_place n a size top rgns
  unfolding find_place
  find_place-fuel zero n a rgns low le l u = absurd (omega arith)
  find_place-fuel (suc m) zero a rgns low le l u = absurd (omega arith)
  find_place-fuel (suc m) (suc n) a rgns low le l u =
      let q = align_up_ul a page_size in
      let (al, lo, plain) = aligned_lem a le in
      elim (Bool-cases (ltb top (q + size))) [
        | inl full ↦ rw (plain, full) refl
        | inr room ↦ elim (Option-cases (first_overlap q (q + size) rgns)) [
          | inl free ↦ rw (plain, room, free, find_place) refl
          | inr (r_end, meets) ↦
              let (past, in_pool, fewer) =
                first_overlap-some top (omega arith) q (q + size) rgns low meets in
              let less = behind_mono a q rgns lo in
              rw (plain, room, meets, find_place)
                (find_place-fuel m n r_end rgns low in_pool (omega arith) (omega arith))
        ]
      ]

-- Some region holds an address.
abbrev pub Covers : List Reserved → ℕ → Type 0
Covers [] x = ⊥
Covers (r ∷ rgns) x = ((r.start ≤ x) × (x < r.start + r.size)) ⊎ Covers rgns x

Below-append :
    (top : ℕ) (xs ys : List Reserved) → Below top xs → Below top ys → Below top (xs ++ ys)
Below-append top [] ys low low' = low'
Below-append top (x ∷ xs) ys (le, low) low' = (le, Below-append top xs ys low low')

Covers-append : (xs ys : List Reserved) (x : ℕ) → Covers xs x ⊎ Covers ys x → Covers (xs ++ ys) x
Covers-append [] ys x (inl c) = absurd c
Covers-append [] ys x (inr c) = c
Covers-append (r ∷ xs) ys x (inl (inl here)) = inl here
Covers-append (r ∷ xs) ys x (inl (inr there)) = inr (Covers-append xs ys x (inl there))
Covers-append (r ∷ xs) ys x (inr c) = inr (Covers-append xs ys x (inr c))

-- `memory_reserve` of a range that does not wrap round, in a pool that does not: the regions end in
-- the pool as before, what was covered still is, and with a place left in the table every address
-- of the range that lies in the pool is covered.
pub memory_reserve-Covers :
    (start size : ℕ) (b : Buddy) (rgns : List Reserved)
    → let top = b.mempool_start + b.mempool_size in
      top < word_mod
      → start + size < word_mod
      → Below top rgns
      → Below top (memory_reserve start size b rgns)
        × ((x : ℕ) → Covers rgns x → Covers (memory_reserve start size b rgns) x)
        × (length rgns < max_reserved_regions
            → (x : ℕ) → start ≤ x
            → x < start + size
            → b.mempool_start ≤ x
            → x < top
            → Covers (memory_reserve start size b rgns) x)
unfolding memory_reserve
memory_reserve-Covers start size b rgns pool range low =
    let top = b.mempool_start + b.mempool_size in
    let end : add64 start size ≡ start + size = omega arith in
    let pool_end : add64 b.mempool_start b.mempool_size ≡ top = omega arith in
    elim (Bool-cases ((size == 0) || leb max_reserved_regions (length rgns))) [
      | inl skip ↦ rw skip (low, λ x c. c, λ few x l u pl pu. absurd (ground arith))
      | inr go ↦ elim (Bool-cases (leb (start + size) b.mempool_start || leb top start)) [
        | inl out ↦
            rw (go, end, pool_end, out) (low, λ x c. c, λ few x l u pl pu. absurd (ground arith))
        | inr meets ↦
            let r = clipped start (start + size) b.mempool_start top in
            let fits : r.start + r.size ≤ top = ground arith in
            rw (go, end, pool_end, meets)
              (
                Below-append top rgns (r ∷ []) low (fits, tt),
                λ x c. Covers-append rgns (r ∷ []) x (inl c),
                λ few x l u pl pu. Covers-append rgns (r ∷ []) x (inr (inl (ground arith))),
              )
      ]
    ]

place_frames-place :
    (size : ℕ) (b : Buddy) (rgns : List Reserved)
    → (place_frames size b rgns).0
      ≡ find_place
          (length rgns + 1)
          b.mempool_start
          size
          (add64 b.mempool_start b.mempool_size)
          rgns
unfolding place_frames
place_frames-place size b rgns =
    elim (Option-cases (
      find_place (length rgns + 1) b.mempool_start size (add64 b.mempool_start b.mempool_size)
        rgns)) [
          | inl miss ↦ rw (miss, place_frames) refl
          | inr (p, found) ↦ rw (found, place_frames) refl
        ]

-- In a pool that does not come close to the end of memory, `place_frames` gives a page-aligned place
-- in the pool that meets no reserved region, or none, and more turns than it takes would not change
-- what it finds.
pub place_frames-Clear :
    (size : ℕ) (b : Buddy) (rgns : List Reserved)
    → let top = b.mempool_start + b.mempool_size in
      top + size + page_size ≤ word_mod
      → Below top rgns
      → ((p : ℕ)
          → (place_frames size b rgns).0 ≡ some p
          → (p % page_size ≡ 0)
            × (b.mempool_start ≤ p)
            × (p + size ≤ top)
            × Clear p (p + size) rgns)
        × ((n : ℕ)
            → length rgns < n
            → find_place n b.mempool_start size (add64 b.mempool_start b.mempool_size) rgns
              ≡ (place_frames size b rgns).0)
place_frames-Clear size b rgns bound low =
    let top = b.mempool_start + b.mempool_size in
    let pool_end : add64 b.mempool_start b.mempool_size ≡ top = omega arith in
    let few = behind-length b.mempool_start rgns in
    rw (place_frames-place size b rgns, pool_end)
      (
        λ p e.
            find_place-Clear top size bound (length rgns + 1) b.mempool_start rgns low (omega arith)
              e,
        λ n l.
            find_place-fuel top size bound n (length rgns + 1) b.mempool_start rgns low
              (omega arith) (omega arith) (omega arith),
      )
