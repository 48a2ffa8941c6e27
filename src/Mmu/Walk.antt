-- ===== src/Mmu/Walk.antt =====
-- src/mmu.c: an address that is mapped is found by the walk.
use bare_metal_os.Base.{
  ℕ, suc, ◌<◌, ◌≡◌, refl, sym, ap, ◌∙◌, ◌≢◌, inl, inr, Bool, true, false, some, arith, update,
  count,
}
use bare_metal_os.Base.Words.{sub64}
use bare_metal_os.Config.{page_offset}
use bare_metal_os.Mmu.{
  is_valid, make_pte, page_of, vpn2, vpn1, vpn0, set_entry, descend, pagewalk, map_page_at, Tables,
}
use bare_metal_os.Mmu.Levels.{
  page_of-make_pte, is_valid-make_pte, IsStocked, IsStocked-pred, IsStocked-head, linked,
  descend-cases, linked-IsLayered, IsLayered,
}

-- What `descend` makes of an entry of an upper table when there is a page: the entry is valid and
-- points to a table of the next level, and no table of old changes but for this entry.
pub descend_lem :
    (level : ℕ → ℕ) (s : Tables) (t i n k : ℕ)
    → IsLayered level s
    → level t ≡ suc (suc n)
    → IsStocked (suc k) s.fresh
    → (level' : ℕ → ℕ) × (s' : Tables) × (descend t i true s ≡ (some (page_of (s'.entry t i)), s'))
      × IsLayered level' s'
      × IsStocked k s'.fresh
      × (level' (page_of (s'.entry t i)) ≡ suc n)
      × (is_valid (s'.entry t i) ≡ true)
      × ((x : ℕ) → 0 < level x → level' x ≡ level x)
      × ((x j : ℕ) → 0 < level x → x ≢ t → s'.entry x j ≡ s.entry x j)
descend_lem level s t i n k l h stocked =
    let (p, rest, e, pos, ready) = IsStocked-head k s.fresh stocked in
    let (free, page) = l.unused p pos (ground (arith, ap (count p) e)) in
    let pte : ℕ = make_pte (sub64 p page_offset) 1 in
    let to : page_of pte ≡ p = page_of-make_pte p 1 page (omega arith) in
    let put : (linked t i p rest s).entry t i ≡ pte = ground arith in
    elim (descend-cases t i s p rest e pos) [
      | inl (v, found) ↦ (
        level,
        s,
        found,
        l,
        IsStocked-pred k s.fresh stocked,
        l.points t i n h v,
        v,
        λ x pos. refl,
        λ x j pos ne. refl,
      )
      | inr (v, made) ↦ (
        update level p (suc n),
        linked t i p rest s,
        made ∙ ap (λ x. (some (page_of x), linked t i p rest s)) (sym put),
        linked-IsLayered level t i n p rest s l h e pos,
        ready,
        ap (λ x. update level p (suc n) (page_of x)) put
            ∙ ap (update level p (suc n)) to
            ∙ ground arith,
        ap is_valid put ∙ is_valid-make_pte (sub64 p page_offset),
        λ x pos. ground arith,
        λ x j pos ne. ground arith,
      )
    ]

-- The path of an address through the tables to the last one.
pub record IsPath (pgd va t : ℕ) (s : Tables) : Type 0 where
  pub upper : is_valid (s.entry pgd (vpn2 va)) ≡ true
  pub middle : is_valid (s.entry (page_of (s.entry pgd (vpn2 va))) (vpn1 va)) ≡ true
  pub last : page_of (s.entry (page_of (s.entry pgd (vpn2 va))) (vpn1 va)) ≡ t

descend-valid :
    (t i : ℕ) (s : Tables)
    → is_valid (s.entry t i) ≡ true
    → descend t i false s ≡ (some (page_of (s.entry t i)), s)
unfolding descend
descend-valid t i s v = rw (v, descend) refl

pagewalk-descend :
    (pgd va u t : ℕ) (alloc : Bool) (s s1 s2 : Tables)
    → descend pgd (vpn2 va) alloc s ≡ (some u, s1)
    → descend u (vpn1 va) alloc s1 ≡ (some t, s2)
    → pagewalk pgd va alloc s ≡ (some (t, vpn0 va), s2)
unfolding pagewalk
pagewalk-descend pgd va u t alloc s s1 s2 a b =
    let a0 : (descend pgd (vpn2 va) alloc s).0 ≡ some u = ap (λ r. r.0) a in
    let a1 : (descend pgd (vpn2 va) alloc s).1 ≡ s1 = ap (λ r. r.1) a in
    let b0 : (descend u (vpn1 va) alloc s1).0 ≡ some t = ap (λ r. r.0) b in
    let b1 : (descend u (vpn1 va) alloc s1).1 ≡ s2 = ap (λ r. r.1) b in
    rw (pagewalk, a0, a1, b0, b1) refl

pub pagewalk-IsPath :
    (pgd va t : ℕ) (s : Tables)
    → IsPath pgd va t s
    → pagewalk pgd va false s ≡ (some (t, vpn0 va), s)
pagewalk-IsPath pgd va t s p =
    let u : ℕ = page_of (s.entry pgd (vpn2 va)) in
    pagewalk-descend pgd va u t false s s s (descend-valid pgd (vpn2 va) s p.upper)
      (descend-valid u (vpn1 va) s p.middle ∙ ap (λ x. (some x, s)) p.last)

-- What `pagewalk` makes of an address when there are two pages: a path to a table of the last level.
pub pagewalk_lem :
    (level : ℕ → ℕ) (s : Tables) (pgd va : ℕ)
    → IsLayered level s
    → level pgd ≡ 3
    → IsStocked 2 s.fresh
    → (level' : ℕ → ℕ) × (s' : Tables) × (t : ℕ) × (pagewalk pgd va true s
        ≡ (some (t, vpn0 va), s'))
      × IsLayered level' s'
      × IsPath pgd va t s'
      × (level' pgd ≡ 3)
      × (level' (page_of (s'.entry pgd (vpn2 va))) ≡ 2)
      × (level' t ≡ 1)
pagewalk_lem level s pgd va l h stocked =
    let (l1, s1, e1, layered1, stocked1, at2, valid1, keeps1, _) =
      descend_lem level s pgd (vpn2 va) 1 1 l h stocked in
    let u : ℕ = page_of (s1.entry pgd (vpn2 va)) in
    let (l2, s2, e2, layered2, _, at1, valid2, keeps2, same2) =
      descend_lem l1 s1 u (vpn1 va) 0 0 layered1 at2 stocked1 in
    let root : l1 pgd ≡ 3 = keeps1 pgd (omega (arith, h)) ∙ h in
    let top : s2.entry pgd (vpn2 va) ≡ s1.entry pgd (vpn2 va) =
      same2 pgd (vpn2 va) (omega (arith, root)) (λ e. omega (arith, ap l1 e, at2, root)) in
    let t : ℕ = page_of (s2.entry u (vpn1 va)) in
    (
      l2,
      s2,
      t,
      pagewalk-descend pgd va u t true s s1 s2 e1 e2,
      layered2,
      record {
        upper = ap is_valid top ∙ valid1;
        middle = ap (λ x. is_valid (s2.entry (page_of x) (vpn1 va))) top ∙ valid2;
        last = ap (λ x. page_of (s2.entry (page_of x) (vpn1 va))) top;
      },
      keeps2 pgd (omega (arith, root)) ∙ root,
      ap (λ x. l2 (page_of x)) top ∙ keeps2 u (omega (arith, at2)) ∙ at2,
      at1,
    )

map_page_at-pagewalk :
    (pgd a pa prot t : ℕ) (s s' : Tables)
    → pagewalk pgd a true s ≡ (some (t, vpn0 a), s')
    → map_page_at pgd a pa prot s ≡ set_entry t (vpn0 a) (make_pte pa prot) s'
unfolding map_page_at
map_page_at-pagewalk pgd a pa prot t s s' e =
    let e0 : (pagewalk pgd a true s).0 ≡ some (t, vpn0 a) = ap (λ r. r.0) e in
    let e1 : (pagewalk pgd a true s).1 ≡ s' = ap (λ r. r.1) e in rw (map_page_at, e0, e1) refl

-- A write to a table of the last level leaves the levels and the paths.
set_entry-IsLayered :
    (level : ℕ → ℕ) (s : Tables) (t i v : ℕ)
    → level t ≡ 1
    → IsLayered level s
    → IsLayered level (set_entry t i v s)
set_entry-IsLayered level s t i v h l = record {
  points = λ x j n lx valid.
      let other : x ≢ t = λ e. omega (arith, ap level e) in
      let same : update s.entry t (update (s.entry t) i v) x j ≡ s.entry x j = ground arith in
      rw same (l.points x j n lx (rw (← same) valid));
  unused = l.unused;
  once = l.once;
}

set_entry-IsPath :
    (level : ℕ → ℕ) (s : Tables) (pgd va t i v : ℕ)
    → level t ≡ 1
    → level pgd ≡ 3
    → level (page_of (s.entry pgd (vpn2 va))) ≡ 2
    → IsPath pgd va t s
    → IsPath pgd va t (set_entry t i v s)
set_entry-IsPath level s pgd va t i v lt lp lm p =
    let new : ℕ → ℕ → ℕ = update s.entry t (update (s.entry t) i v) in
    let u : ℕ = page_of (s.entry pgd (vpn2 va)) in
    let p_other : pgd ≢ t = λ e. omega (arith, ap level e) in
    let u_other : u ≢ t = λ e. omega (arith, ap level e) in
    let top : new pgd (vpn2 va) ≡ s.entry pgd (vpn2 va) = ground (arith, p_other) in
    let next : new u (vpn1 va) ≡ s.entry u (vpn1 va) = ground (arith, u_other) in
    record {
      upper = ap is_valid top ∙ p.upper;
      middle = ap (λ x. is_valid (new (page_of x) (vpn1 va))) top ∙ ap is_valid next ∙ p.middle;
      last = ap (λ x. page_of (new (page_of x) (vpn1 va))) top ∙ ap page_of next ∙ p.last;
    }

-- Mapping a page and walking to it: in tables whose levels are right, from a directory, and with
-- two pages left to allocate, `pagewalk` without allocation finds the entry that the body of
-- `map_pages_at` wrote, with the frame and the flags it was given, and the levels are right again.
pub pagewalk-map_page_at :
    (level : ℕ → ℕ) (s : Tables) (pgd a pa prot : ℕ)
    → IsLayered level s
    → level pgd ≡ 3
    → IsStocked 2 s.fresh
    → let s' = map_page_at pgd a pa prot s in
      (t : ℕ) × (level' : ℕ → ℕ) × (pagewalk pgd a false s' ≡ (some (t, vpn0 a), s'))
      × (s'.entry t (vpn0 a) ≡ make_pte pa prot)
      × IsLayered level' s'
      × (level' pgd ≡ 3)
pagewalk-map_page_at level s pgd a pa prot l h stocked =
    let (l', s1, t, e, layered, path, root, mid, leaf) = pagewalk_lem level s pgd a l h stocked in
    let step = map_page_at-pagewalk pgd a pa prot t s s1 e in
    let walked =
      pagewalk-IsPath pgd a t (set_entry t (vpn0 a) (make_pte pa prot) s1)
        (set_entry-IsPath l' s1 pgd a t (vpn0 a) (make_pte pa prot) leaf root mid path) in
    (
      t,
      l',
      rw step walked,
      ap (λ x. x.entry t (vpn0 a)) step ∙ ground arith,
      rw step (set_entry-IsLayered l' s1 t (vpn0 a) (make_pte pa prot) leaf layered),
      root,
    )
