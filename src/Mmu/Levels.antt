-- ===== src/Mmu/Levels.antt =====
-- src/mmu.c: the levels of the page tables, and that a new table keeps them.
use bare_metal_os.Base.{
  ℕ, zero, suc, ◌-◌, ◌*◌, ◌/◌, ◌%◌, ◌≤◌, ◌<◌, bit_and, bit_or, ◌≡◌, refl, ap, ◌∙◌, ◌⊎◌, inl, inr,
  Bool, true, false, some, List, [], ◌∷◌, arith, ◌==◌, Bool-cases, update, count,
}
use bare_metal_os.Base.Words.{word_mod, sub64}
use bare_metal_os.Base.Bits.{bit_and-mask}
use bare_metal_os.Base.Bits.Or.{bit_or-shift, bit_or-odd}
use bare_metal_os.Config.{page_offset}
use bare_metal_os.Mmu.{
  is_valid, make_pte, page_of, set_entry, take_page, clear_page, descend, Tables,
}

-- A page that a table entry can point to: whole pages in the part that PAGE_OFFSET maps.
pub record IsPage (p : ℕ) : Type 0 where
  pub aligned : p % 4096 ≡ 0
  pub mapped : page_offset < p
  pub small : p < word_mod

-- The address of a page comes back from the entry that is made of it, whatever its flags.
pub page_of-make_pte :
    (p flags : ℕ) → IsPage p → flags < 1024 → page_of (make_pte (sub64 p page_offset) flags) ≡ p
page_of-make_pte p flags i h =
    let x : ℕ = p - page_offset in
    let physical : sub64 p page_offset ≡ x = omega (arith, i) in
    let shift = bit_or-shift 10 (x / 4096 * 1024) flags h in
    let frame : bit_or (x / 4096 * 1024) flags / 1024 ≡ x / 4096 = omega (arith, shift) in
    let word : x / 4096 * 1024 % word_mod ≡ x / 4096 * 1024 = omega (arith, i) in
    rw (physical, word, frame) (omega (arith, i))

pub is_valid-make_pte : (pa : ℕ) → is_valid (make_pte pa 1) ≡ true
is_valid-make_pte pa =
    let x : ℕ = pa / 4096 * 1024 % word_mod in
    let odd : bit_and (bit_or x 1) 1 ≡ 1 = bit_and-mask 1 (bit_or x 1) ∙ bit_or-odd x in rw odd refl

-- The tables in levels: 3 for a directory, 2 and 1 below it, and 0 for what is no table. A valid
-- entry of an upper table points to one of the next level; the pages to come are no tables yet, and
-- none comes twice.
pub record IsLayered (level : ℕ → ℕ) (s : Tables) : Type 0 where
  pub points :
      (t i n : ℕ)
      → level t ≡ suc (suc n)
      → is_valid (s.entry t i) ≡ true
      → level (page_of (s.entry t i)) ≡ suc n
  pub unused : (p : ℕ) → 0 < p → 0 < count p s.fresh → (level p ≡ 0) × IsPage p
  pub once : (p : ℕ) → 0 < p → count p s.fresh ≤ 1

-- The next `n` calls of `allocate` give a page.
abbrev pub IsStocked : ℕ → List ℕ → Type 0
IsStocked zero fresh = Unit
IsStocked (suc n) [] = ⊥
IsStocked (suc n) (p ∷ fresh) = (0 < p) × IsStocked n fresh

pub IsStocked-pred : (n : ℕ) (fresh : List ℕ) → IsStocked (suc n) fresh → IsStocked n fresh
IsStocked-pred zero fresh h = tt
IsStocked-pred (suc n) [] h = h
IsStocked-pred (suc n) (p ∷ fresh) h = (h.0, IsStocked-pred n fresh h.1)

pub IsStocked-head :
    (n : ℕ) (fresh : List ℕ)
    → IsStocked (suc n) fresh
    → (p : ℕ) × (rest : List ℕ) × (fresh ≡ p ∷ rest) × (0 < p) × IsStocked n rest
IsStocked-head n [] h = absurd h
IsStocked-head n (p ∷ rest) h = (p, rest, refl, h.0, h.1)

-- The state after `descend` has taken a page for an entry.
abbrev pub linked : ℕ → ℕ → ℕ → List ℕ → Tables → Tables
linked t i p rest s =
    set_entry t i (make_pte (sub64 p page_offset) 1)
      (clear_page p (record s { fresh = rest; owners = update s.owners p 1 }))

pub descend-cases :
    (t i : ℕ) (s : Tables) (p : ℕ) (rest : List ℕ)
    → s.fresh ≡ p ∷ rest
    → 0 < p
    → ((is_valid (s.entry t i) ≡ true) × (descend t i true s ≡ (some (page_of (s.entry t i)), s)))
      ⊎ ((is_valid (s.entry t i) ≡ false)
          × (descend t i true s
              ≡ (some (page_of (make_pte (sub64 p page_offset) 1)), linked t i p rest s)))
unfolding descend take_page
descend-cases t i s p rest e h = elim (Bool-cases (is_valid (s.entry t i))) [
  | inl v ↦ inl (v, rw (v, descend) refl)
  | inr v ↦
      let full : (p == 0) ≡ false = ground arith in
      inr (v, rw (v, descend, take_page, e, full) refl)
]

-- The levels stay right when a cleared page becomes the target of an entry.
module _ (valid : ℕ → Bool) (target : ℕ → ℕ) where
  points-update :
      (level : ℕ → ℕ) (entry : ℕ → ℕ → ℕ) (t i n p v : ℕ)
      → valid 0 ≡ false
      → ((t i n : ℕ)
          → level t ≡ suc (suc n)
          → valid (entry t i) ≡ true
          → level (target (entry t i)) ≡ suc n)
      → level t ≡ suc (suc n)
      → level p ≡ 0
      → target v ≡ p
      → (x j m : ℕ)
      → let cleared : ℕ → ℕ → ℕ = update entry p (λ _. 0) in
        let new : ℕ → ℕ → ℕ = update cleared t (update (cleared t) i v) in
        update level p (suc n) x ≡ suc (suc m)
        → valid (new x j) ≡ true
        → update level p (suc n) (target (new x j)) ≡ suc m
  points-update level entry t i n p v zeros points lt lp tv x j m lx vx =
      ground (arith, points x j m)

pub linked-IsLayered :
    (level : ℕ → ℕ) (t i n p : ℕ) (rest : List ℕ) (s : Tables)
    → IsLayered level s
    → level t ≡ suc (suc n)
    → s.fresh ≡ p ∷ rest
    → 0 < p
    → IsLayered (update level p (suc n)) (linked t i p rest s)
linked-IsLayered level t i n p rest s l h e pos =
    let (free, page) = l.unused p pos (rw e (ground arith)) in
    let to : page_of (make_pte (sub64 p page_offset) 1) ≡ p =
      page_of-make_pte p 1 page (omega arith) in
    record {
      points =
          points-update is_valid page_of level s.entry t i n p (make_pte (sub64 p page_offset) 1)
            refl l.points h free to;
      unused = λ q qpos c.
          let counted : count q s.fresh ≡ count q (p ∷ rest) = ap (count q) e in
          ground (arith, l.unused q qpos, l.once q qpos, l.once p pos, ap (count p) e);
      once = λ q qpos. ground (arith, ap (count q) e, l.once q qpos);
    }
