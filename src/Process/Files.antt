-- ===== src/Process/Files.antt =====
-- src/syscall.c: the descriptors of a process and the files that they open.
use native.Mathlib.Decide.{ℕ_discrete}
use bare_metal_os.Base.{
  ℕ, zero, suc, ◌<◌, ◌≡◌, refl, ap, ◌∙◌, ◌≢◌, ◌⊎◌, inl, inr, false, none, some, List, [], ◌∷◌,
  arith, ◌==◌, if◌then◌else◌, length, get_or, set,
}
use bare_metal_os.Kernel.{vfs_close, Kernel}
use bare_metal_os.Process.{fail, set_fd, file_of, free_fd, sys_open}

taken-cons :
    (f : ℕ) (fdt : List ℕ) (n : ℕ)
    → 0 < f
    → ((i : ℕ) → i < n → 0 < get_or fdt i 0)
    → (i : ℕ) → i < suc n
    → 0 < get_or (f ∷ fdt) i 0
taken-cons f fdt n pos taken zero h = pos
taken-cons f fdt n pos taken (suc i) h = taken i (omega arith)

-- The entry that is free is the lowest, and without one all are taken.
free_fd_lem :
    (fdt : List ℕ)
    → ((free_fd fdt ≡ none) × ((i : ℕ) → i < length fdt → 0 < get_or fdt i 0))
      ⊎ ((fd : ℕ) × (free_fd fdt ≡ some fd)
          × (fd < length fdt)
          × (get_or fdt fd 0 ≡ 0)
          × ((i : ℕ) → i < fd → 0 < get_or fdt i 0))
unfolding free_fd
free_fd_lem [] = inl (refl, λ i h. absurd (omega arith))
free_fd_lem (f ∷ fdt) = elim (ℕ_discrete f 0) [
  | yes e ↦ inr (0, rw (free_fd, e) refl, omega arith, e, λ i h. absurd (omega arith))
  | no e ↦
      let open_file : (f == 0) ≡ false = ground arith in
      elim (free_fd_lem fdt) [
        | inl (full, taken) ↦
            inl (
              rw (free_fd, open_file, full) refl,
              taken-cons f fdt (length fdt) (omega arith) taken,
            )
        | inr (fd, found, less, free, taken) ↦ inr (
          suc fd,
          rw (free_fd, open_file, found) refl,
          omega arith,
          free,
          taken-cons f fdt fd (omega arith) taken,
        )
      ]
]

get_or-set :
    (fdt : List ℕ) (i j v : ℕ)
    → i < length fdt
    → get_or (set fdt i v) j 0 ≡ (if j == i then v else get_or fdt j 0)
get_or-set [] i j v h = absurd (omega arith)
get_or-set (f ∷ fdt) zero zero v h = refl
get_or-set (f ∷ fdt) zero (suc j) v h = ground arith
get_or-set (f ∷ fdt) (suc i) zero v h = ground arith
get_or-set (f ∷ fdt) (suc i) (suc j) v h = ground (arith, get_or-set fdt i j v)

file_of-open :
    (i : ℕ) (k : Kernel)
    → i < 16
    → 0 < get_or (k.threads k.current).fdt i 0
    → file_of i k ≡ some (get_or (k.threads k.current).fdt i 0)
unfolding file_of
file_of-open i k h pos = ground arith

file_of-free : (i : ℕ) (k : Kernel) → get_or (k.threads k.current).fdt i 0 ≡ 0 → file_of i k ≡ none
unfolding file_of
file_of-free i k e = ground arith

file_of-same :
    (i : ℕ) (k k' : Kernel)
    → get_or (k'.threads k'.current).fdt i 0 ≡ get_or (k.threads k.current).fdt i 0
    → file_of i k' ≡ file_of i k
unfolding file_of
file_of-same i k k' e = rw (file_of, e) refl

sys_open-full :
    (f : ℕ) (k : Kernel)
    → free_fd (k.threads k.current).fdt ≡ none
    → sys_open (some f) k ≡ (fail, vfs_close f k)
unfolding sys_open
sys_open-full f k e = rw (sys_open, e) refl

sys_open-found :
    (f fd : ℕ) (k : Kernel)
    → free_fd (k.threads k.current).fdt ≡ some fd
    → sys_open (some f) k ≡ (fd, set_fd fd f k)
unfolding sys_open
sys_open-found f fd k e = rw (sys_open, e) refl

set_fd-fdt :
    (fd f : ℕ) (k : Kernel)
    → ((set_fd fd f k).threads k.current).fdt ≡ set (k.threads k.current).fdt fd f
set_fd-fdt fd f k = ground arith

-- Opening a file, with a table of 16 entries. Either every descriptor from 0 to 15 is taken: the
-- result is -1, and the new file is closed again. Or the result is the lowest descriptor that was
-- not open: it now opens the new file, every other descriptor opens what it opened before, and no
-- other thread changes.
pub sys_open_lem :
    (f : ℕ) (k : Kernel)
    → 0 < f
    → length (k.threads k.current).fdt ≡ 16
    → let k' = (sys_open (some f) k).1 in
      let fd = (sys_open (some f) k).0 in
      ((fd ≡ fail) × (k' ≡ vfs_close f k) × ((i : ℕ) → i < 16 → (g : ℕ) × (file_of i k ≡ some g)))
      ⊎ ((fd < 16)
          × (file_of fd k ≡ none)
          × ((i : ℕ) → i < fd → (g : ℕ) × (file_of i k ≡ some g))
          × (file_of fd k' ≡ some f)
          × ((i : ℕ) → i ≢ fd → file_of i k' ≡ file_of i k)
          × ((t : ℕ) → t ≢ k.current → k'.threads t ≡ k.threads t))
sys_open_lem f k pos n = elim (free_fd_lem (k.threads k.current).fdt) [
  | inl (full, taken) ↦
      let e = sys_open-full f k full in
      inl (
        ap (λ r. r.0) e,
        ap (λ r. r.1) e,
        λ i h. (get_or (k.threads k.current).fdt i 0, file_of-open i k h (taken i (omega arith))),
      )
  | inr (fd, found, less, free, taken) ↦
      let e = sys_open-found f fd k found in
      let k' : Kernel = set_fd fd f k in
      let entries = λ (i : ℕ).
        ap (λ x. get_or x i 0) (set_fd-fdt fd f k)
        ∙ get_or-set (k.threads k.current).fdt fd i f less in
      let got : get_or (k'.threads k'.current).fdt fd 0 ≡ f = entries fd ∙ ground arith in
      rw e (
        inr (
          omega arith,
          file_of-free fd k free,
          λ i h. (get_or (k.threads k.current).fdt i 0, file_of-open i k (omega arith) (taken i h)),
          file_of-open fd k' (omega arith) (omega (arith, got)) ∙ ap some got,
          λ i ne. file_of-same i k k' (entries i ∙ ground arith),
          λ t ne. ground arith,
        ))
]
