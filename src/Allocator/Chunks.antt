-- ===== src/Allocator/Chunks.antt =====
-- The chunks that a page is cut into: which addresses they have, and how many there are.
use native.Mathlib.Decide.{dec_lt}
use native.Mathlib.Nat.{mod-eq_of_lt, mod-eq-sub-mod}
use bare_metal_os.Base.{
  ℕ, zero, suc, ◌+◌, ◌-◌, ◌*◌, ◌/◌, ◌%◌, ◌≤◌, ◌<◌, ◌≡◌, refl, ap, ◌∙◌, ◌≢◌, ◌&&◌, List, [], ◌∷◌,
  arith, ltb, leb, ◌==◌, if◌then◌else◌, count,
}
use bare_metal_os.Config.{page_size}
use bare_metal_os.Allocator.{add_chunks, off_page}

-- 1 where `x` is one of the `n` chunks of a page from `addr` on, else 0.
abbrev pub hits : ℕ → ℕ → ℕ → ℕ → ℕ
hits n addr size x =
    if leb addr x && (ltb x (addr + n * size) && ((x - addr) % size == 0)) then 1 else 0

pub hits-suc :
    (n addr size x : ℕ)
    → 0 < size
    → hits (suc n) addr size x ≡ hits n (addr + size) size x + (if addr == x then 1 else 0)
hits-suc n addr size x pos = elim (dec_lt x (addr + size)) [
  | yes near ↦ elim (dec_lt x addr) [
    | yes before ↦ ground arith
    | no after ↦ ground (arith, mod-eq_of_lt {n = x - addr} {m = size})
  ]
  | no far ↦
      let back : (x - addr) % size ≡ (x - (addr + size)) % size =
        mod-eq-sub-mod {n = x - addr} {m = size} (omega arith) ∙ ap (λ t. t % size) (omega arith) in
      rw back (ground arith)
]

-- Each chunk is put on the list once, and what was on the list stays.
pub count-add_chunks :
    (n addr size : ℕ) (l : List ℕ) (x : ℕ)
    → 0 < size
    → count x (add_chunks n addr size l) ≡ hits n addr size x + count x l
unfolding add_chunks
count-add_chunks zero addr size l x pos = ground arith
count-add_chunks (suc n) addr size l x pos =
    ground
      (arith, count-add_chunks n (addr + size) size (addr ∷ l) x pos, hits-suc n addr size x pos)

-- The number of the page, from `start` on, on which an address lies.
abbrev pub page_at : ℕ → ℕ → ℕ
page_at start x = (x - start) / page_size

-- How many addresses of a list lie on page `p`.
unfoldable pub count_on : ℕ → ℕ → List ℕ → ℕ
count_on start p [] = 0
count_on start p (x ∷ l) =
    if page_at start x == p then suc (count_on start p l) else count_on start p l

pub count_on-add_chunks :
    (n addr size start idx p : ℕ) (l : List ℕ)
    → 0 < size
    → start + idx * page_size ≤ addr
    → addr + n * size ≤ start + (idx + 1) * page_size
    → count_on start p (add_chunks n addr size l) ≡ (if p == idx then n else 0) + count_on start p l
unfolding add_chunks count_on
count_on-add_chunks zero addr size start idx p l pos lo hi = ground arith
count_on-add_chunks (suc n) addr size start idx p l pos lo hi =
    let page : page_at start addr ≡ idx = omega arith in
    ground (
      arith,
      page,
      count_on-add_chunks n (addr + size) size start idx p (addr ∷ l) pos (omega arith)
          (omega arith),
    )

-- A page on which no address of the list lies.
pub count_on-zero :
    (start p : ℕ) (l : List ℕ)
    → ((x : ℕ) → 0 < count x l → page_at start x ≢ p)
    → count_on start p l ≡ 0
unfolding count_on
count_on-zero start p [] none' = refl
count_on-zero start p (x ∷ l) none' =
    ground (arith, none' x, count_on-zero start p l (λ y pos. none' y (ground arith)))

-- Taking the chunks of the page at `base` off the list.
pub count-off_page :
    (base : ℕ) (l : List ℕ) (x : ℕ)
    → count x (off_page base l) ≡ (if leb base x && ltb x (base + page_size) then 0 else count x l)
unfolding off_page
count-off_page base [] x = ground arith
count-off_page base (y ∷ l) x = ground (arith, count-off_page base l x)

-- What lies on another page stays.
pub count_on-off_page :
    (base start idx p : ℕ) (l : List ℕ)
    → base ≡ start + idx * page_size
    → ((x : ℕ) → 0 < count x l → start ≤ x)
    → p ≢ idx
    → count_on start p (off_page base l) ≡ count_on start p l
unfolding off_page count_on
count_on-off_page base start idx p [] e above ne = refl
count_on-off_page base start idx p (x ∷ l) e above ne =
    ground
      (arith, above x, count_on-off_page base start idx p l e (λ y pos. above y (ground arith)) ne)
