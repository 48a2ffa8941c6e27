-- ===== src/Mmu/Tests.antt =====
-- A page directory with no entries, and two pages for its tables.
use bare_metal_os.Base.{
  ℕ, ◌≡◌, refl, ◌⊎◌, inl, inr, false, some, [], ◌∷◌, arith, ◌==◌, if◌then◌else◌,
}
use bare_metal_os.Mmu.{make_pte, vpn0, take_page, descend, pagewalk, map_page_at, Tables}
use bare_metal_os.Mmu.Levels.{IsPage, IsLayered}
use bare_metal_os.Mmu.Walk.{pagewalk-map_page_at}

abbrev root : ℕ
root = 0xffffffc081000000

abbrev pub page_a : ℕ
page_a = 0xffffffc081001000

abbrev pub page_b : ℕ
page_b = 0xffffffc081002000

abbrev pub tables : Tables
tables = record {
  entry = λ _ _. 0;
  bytes = λ _ _. 0;
  owners = λ _. 0;
  fresh = page_a ∷ page_b ∷ [];
  freed = [];
}

abbrev level : ℕ → ℕ
level x = if x == root then 3 else 0

mapped_entry : (map_page_at root 0x10001000 0x82000000 0xd7 tables).entry page_b 1 ≡ 0x208000d7
unfolding map_page_at pagewalk descend take_page
mapped_entry = refl

pub page_a-IsPage : IsPage page_a
page_a-IsPage = record { aligned = refl; mapped = omega arith; small = omega arith }

page_b-IsPage : IsPage page_b
page_b-IsPage = record { aligned = refl; mapped = omega arith; small = omega arith }

tables-IsLayered : IsLayered level tables
tables-IsLayered = record {
  points = λ t i n e v. ground arith;
  unused = λ p pos c.
      let which : (p ≡ page_a) ⊎ (p ≡ page_b) = ground arith in
      elim which [ inl e ↦ rw e (refl, page_a-IsPage) | inr e ↦ rw e (refl, page_b-IsPage) ];
  once = λ p pos. ground arith;
}

pagewalk-map_page_at_example :
    let s' = map_page_at root 0x10001000 0x82000000 0xd7 tables in
    (t : ℕ) × (level' : ℕ → ℕ) × (pagewalk root 0x10001000 false s'
      ≡ (some (t, vpn0 0x10001000), s'))
    × (s'.entry t (vpn0 0x10001000) ≡ make_pte 0x82000000 0xd7)
    × IsLayered level' s'
    × (level' root ≡ 3)
pagewalk-map_page_at_example =
    pagewalk-map_page_at level tables root 0x10001000 0x82000000 0xd7 tables-IsLayered refl
      (omega arith, (omega arith, tt))
