-- ===== src/Mmu.antt =====
-- src/mmu.c: the Sv39 page tables, as entries by table and index.
pub mod Copy
pub mod Boot
pub mod Levels
pub mod Walk
pub mod Tests
use bare_metal_os.Base.{
  ℕ, zero, suc, ◌+◌, ◌-◌, ◌*◌, ◌/◌, ◌%◌, ◌^◌, bit_and, bit_or, Bool, true, false, not, Option, none,
  some, List, [], ◌∷◌, ltb, ◌==◌, if◌then◌else◌, update,
}
use bare_metal_os.Base.Words.{word_mod, int_mod, add64, sub64}
use bare_metal_os.Config.{page_size, page_offset}

-- The tables of 512 entries by their addresses, the bytes of the other pages, the count of owners
-- of a page, what `allocate(PAGE_SIZE)` will give next (0 or nothing for NULL), and what was given
-- to `free`, the latest first.
pub record Tables : Type 0 where
  pub entry : ℕ → ℕ → ℕ
  pub bytes : ℕ → ℕ → ℕ
  pub owners : ℕ → ℕ
  pub fresh : List ℕ
  pub freed : List ℕ

-- PTE_V, PTE_W, PTE_U
abbrev pub is_valid : ℕ → Bool
is_valid pte = not (bit_and pte 1 == 0)

abbrev pub is_writable : ℕ → Bool
is_writable pte = not (bit_and pte 4 == 0)

-- (pa >> 12 << 10) | flags
abbrev pub make_pte : ℕ → ℕ → ℕ
make_pte pa flags = bit_or (pa / 4096 * 1024 % word_mod) flags

-- ((pte >> 10) << 12) + PAGE_OFFSET
abbrev pub page_of : ℕ → ℕ
page_of pte = add64 (pte / 1024 * 4096 % word_mod) page_offset

abbrev pub vpn2 : ℕ → ℕ
vpn2 va = bit_and (va / 2 ^ 30) 0x1ff

abbrev pub vpn1 : ℕ → ℕ
vpn1 va = bit_and (va / 2 ^ 21) 0x1ff

abbrev pub vpn0 : ℕ → ℕ
vpn0 va = bit_and (va / 2 ^ 12) 0x1ff

-- *pte = value
abbrev pub set_entry : ℕ → ℕ → ℕ → Tables → Tables
set_entry t i value s = record s { entry = update s.entry t (update (s.entry t) i value) }

-- `allocate(PAGE_SIZE)`: the page has one owner.
unfoldable pub take_page : Tables → ℕ × Tables
take_page s = elim s.fresh [
  | [] ↦ (0, s)
  | p ∷ rest ↦ (p, record s { fresh = rest; owners = update s.owners p 1 })
]

-- `free` of a page: it goes back when its last owner gives it up. A count of 0 becomes -1.
unfoldable pub free_page : ℕ → Tables → Tables
free_page p s =
    let left : ℕ = if s.owners p == 0 then int_mod - 1 else s.owners p - 1 in
    let dropped : Tables = record s { owners = update s.owners p left } in
    if left == 0 then record dropped { freed = p ∷ s.freed } else dropped

-- memset(page, 0, PAGE_SIZE), as entries and as bytes.
abbrev pub clear_page : ℕ → Tables → Tables
clear_page p s = record s { entry = update s.entry p (λ _. 0); bytes = update s.bytes p (λ _. 0) }

-- One level of `pagewalk`: the table that an entry points to, made where `alloc` asks for it.
unfoldable pub descend : ℕ → ℕ → Bool → Tables → Option ℕ × Tables
descend t i alloc s =
    let (new_pg, s1) = take_page s in
    let pte : ℕ = make_pte (sub64 new_pg page_offset) 1 in
    if is_valid (s.entry t i)
    then (some (page_of (s.entry t i)), s)
    else if not alloc
    then (none, s)
    else if new_pg == 0
    then (none, s1)
    else (some (page_of pte), set_entry t i pte (clear_page new_pg s1))

-- `pagewalk`: the table and the index of the entry for an address.
unfoldable pub pagewalk : ℕ → ℕ → Bool → Tables → Option (ℕ × ℕ) × Tables
pagewalk pgd va alloc s =
    let (pmd, s1) = descend pgd (vpn2 va) alloc s in
    elim pmd [
      | none ↦ (none, s1)
      | some table ↦
          let (pt, s2) = descend table (vpn1 va) alloc s1 in
          (elim pt [ none ↦ none | some t ↦ some (t, vpn0 va) ], s2)
    ]

-- The body of the loop of `map_pages_at`.
unfoldable pub map_page_at : ℕ → ℕ → ℕ → ℕ → Tables → Tables
map_page_at pgd a pa prot s =
    let (pte, s1) = pagewalk pgd a true s in
    elim pte [ none ↦ s1 | some (t, i) ↦ set_entry t i (make_pte pa prot) s1 ]

-- for (a = va; a < va + size; a += PAGE_SIZE, pa += PAGE_SIZE), on fuel.
unfoldable pub map_from : ℕ → ℕ → ℕ → ℕ → ℕ → ℕ → Tables → Tables
map_from zero pgd a pa end prot s = s
map_from (suc fuel) pgd a pa end prot s =
    let next : Tables =
      map_from fuel pgd (add64 a page_size) (add64 pa page_size) end prot
        (map_page_at pgd a pa prot s) in
    if ltb a end then next else s

-- `map_pages_at`
unfoldable pub map_pages_at : ℕ → ℕ → ℕ → ℕ → ℕ → Tables → Tables
map_pages_at pgd va pa size prot s =
    map_from (size / page_size + 1) pgd va pa (add64 va size) prot s

-- `map_pages` with the page directory of the current thread, 0 without one.
unfoldable pub map_pages : ℕ → ℕ → ℕ → ℕ → ℕ → Tables → Tables
map_pages pgd va size pa prot s =
    if pgd == 0 then s else map_pages_at pgd va pa size (bit_or prot 0x10) s

-- for (int i = from; i < from + n; i++)
abbrev pub for_range {ℓ} : {A : Type ℓ} → ℕ → ℕ → (ℕ → A → A) → A → A
for_range zero from f a = a
for_range (suc n) from f a = for_range n (suc from) f (f from a)

-- The same with a body that may fail, which ends the loop.
abbrev pub try_range : ℕ → ℕ → (ℕ → Tables → Bool × Tables) → Tables → Bool × Tables
try_range zero from f s = (true, s)
try_range (suc n) from f s =
    let (done, s') = f from s in
    let rest : Bool × Tables = try_range n (suc from) f s' in if done then rest else (false, s')
