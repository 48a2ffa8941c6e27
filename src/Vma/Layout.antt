-- ===== src/Vma/Layout.antt =====
-- src/syscall.c: the areas of a process lie apart, in order, and adding one keeps them so.
use bare_metal_os.Base.{ℕ, ◌+◌, ◌≤◌, ◌<◌, ◌≡◌, refl, ◌↔◌, ◌⊎◌, false, List, [], ◌∷◌, arith}
use bare_metal_os.Base.Words.{word_mod, add64}
use bare_metal_os.Vma.{is_vma_overlap, new_area, insert_area, add_vma, VmArea}

-- Areas in order, apart from each other and not empty, between two bounds.
abbrev pub IsLaidOut : ℕ → ℕ → List VmArea → Type 0
IsLaidOut low top [] = low ≤ top
IsLaidOut low top (v ∷ vmas) = (low ≤ v.start) × (v.start < v.end) × IsLaidOut v.end top vmas

-- An address that some area holds.
abbrev pub Holds : List VmArea → ℕ → Type 0
Holds [] x = ⊥
Holds (v ∷ vmas) x = ((v.start ≤ x) × (x < v.end)) ⊎ Holds vmas x

pub IsLaidOut-bounds : (low top : ℕ) (vmas : List VmArea) → IsLaidOut low top vmas → low ≤ top
IsLaidOut-bounds low top [] l = l
IsLaidOut-bounds low top (v ∷ vmas) l = omega (arith, IsLaidOut-bounds v.end top vmas l.2, l)

pub IsLaidOut-weaken :
    (low top low' top' : ℕ) (vmas : List VmArea)
    → low' ≤ low
    → top ≤ top'
    → IsLaidOut low top vmas
    → IsLaidOut low' top' vmas
IsLaidOut-weaken low top low' top' [] a b l = omega arith
IsLaidOut-weaken low top low' top' (v ∷ vmas) a b l =
    (omega (arith, l), l.1, IsLaidOut-weaken v.end top v.end top' vmas (omega arith) b l.2)

-- Beyond the last start below a new area's, `insert_area` puts it in its place.
pub insert_area-IsLaidOut :
    (low top : ℕ) (new : VmArea) (vmas : List VmArea)
    → IsLaidOut low top vmas
    → low ≤ new.start
    → new.start < new.end
    → new.end ≤ top
    → is_vma_overlap vmas new.start new.end ≡ false
    → IsLaidOut low top (insert_area new vmas)
unfolding insert_area is_vma_overlap
insert_area-IsLaidOut low top new [] l a b c e = (a, b, c)
insert_area-IsLaidOut low top new (v ∷ vmas) l a b c e =
    ground (
      arith,
      insert_area-IsLaidOut v.end top new vmas,
      IsLaidOut-weaken v.end top v.end top vmas,
      l,
    )

pub insert_area-Holds :
    (new : VmArea) (vmas : List VmArea) (x : ℕ)
    → Holds (insert_area new vmas) x ↔ Holds (new ∷ vmas) x
unfolding insert_area
insert_area-Holds new [] x = ground arith
insert_area-Holds new (v ∷ vmas) x = ground (arith, insert_area-Holds new vmas x)

-- Where no area overlaps the new one, `add_vma` is that insertion, its first case included.
pub add_vma-insert_area :
    (low top : ℕ) (vmas : List VmArea) (start size prot flags : ℕ)
    → IsLaidOut low top vmas
    → 0 < size
    → start + size < word_mod
    → is_vma_overlap vmas start (add64 start size) ≡ false
    → add_vma vmas start size prot flags ≡ insert_area (new_area start size prot flags) vmas
unfolding add_vma insert_area is_vma_overlap
add_vma-insert_area low top [] start size prot flags l p b e = refl
add_vma-insert_area low top (v ∷ vmas) start size prot flags l p b e = ground arith
