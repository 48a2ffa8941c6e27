-- ===== src/Process/Lookup.antt =====
-- src/syscall.c: the thread that the loop over the run queue finds for a PID.
use bare_metal_os.Base.{
  ℕ, ◌<◌, ◌≡◌, ap, ◌≢◌, ◌⊎◌, inl, inr, true, false, Option, none, some, List, [], ◌∷◌, ◌++◌, arith,
  ◌==◌, Bool-cases, count,
}
use native.Mathlib.Decide.{ℕ_discrete}
use mathlib.Core.Option.{some-injective}
use bare_metal_os.Kernel.{is_zombie, status_of, find_pid, Thread, Kernel, terminated, aborted}

-- The first thread of the run queue that has the PID.
abbrev pub IsFirst : (ℕ → Thread) → ℕ → List ℕ → ℕ → Type 0
IsFirst threads pid queue t =
    (before : List ℕ) × (behind : List ℕ) × (queue ≡ before ++ (t ∷ behind))
    × ((x : ℕ) → 0 < count x before → (threads x).pid ≢ pid)
    × ((threads t).pid ≡ pid)

abbrev pub HasEnded : Kernel → ℕ → Type 0
HasEnded k t = (status_of k t ≡ terminated) ⊎ (status_of k t ≡ aborted)

pub is_zombie-HasEnded : (k : Kernel) (t : ℕ) → is_zombie (status_of k t) ≡ true → HasEnded k t
is_zombie-HasEnded k t e = ground arith

pub HasEnded-is_zombie : (k : Kernel) (t : ℕ) → is_zombie (status_of k t) ≡ false → ¬ HasEnded k t
HasEnded-is_zombie k t e h = ground arith

pub find_pid-none :
    (threads : ℕ → Thread) (pid : ℕ) (queue : List ℕ)
    → find_pid threads pid queue ≡ none
    → (x : ℕ) → 0 < count x queue
    → (threads x).pid ≢ pid
unfolding find_pid
find_pid-none threads pid [] e x l same = absurd (ground arith)
find_pid-none threads pid (t ∷ queue) e x l same = elim (Bool-cases ((threads t).pid == pid)) [
  | inl hit ↦ let here : ◌≡◌ {A = Option ℕ} (some t) none = rw hit at e in absurd (ground arith)
  | inr differ ↦ elim (ℕ_discrete t x) [
    | yes at ↦ let named : (threads t).pid ≡ pid = rw at same in absurd (ground arith)
    | no ne ↦ find_pid-none threads pid queue (rw differ at e) x (ground arith) same
  ]
]

pub find_pid-IsFirst :
    (threads : ℕ → Thread) (pid : ℕ) (queue : List ℕ) (t : ℕ)
    → find_pid threads pid queue ≡ some t
    → IsFirst threads pid queue t
unfolding find_pid
find_pid-IsFirst threads pid [] t e = absurd (ground arith)
find_pid-IsFirst threads pid (head ∷ queue) t e = elim (Bool-cases ((threads head).pid == pid)) [
  | inl same ↦
      let here : ◌≡◌ {A = Option ℕ} (some head) (some t) = rw same at e in
      let at : head ≡ t = some-injective _ _ here in
      ([], queue, ap (λ x. x ∷ queue) at, λ x l. absurd (ground arith), rw (← at) (ground arith))
  | inr differ ↦
      let (before, behind, split, others, named) =
        find_pid-IsFirst threads pid queue t (rw differ at e) in
      (head ∷ before, behind, ap (λ q. head ∷ q) split, λ x l. ground (arith, others x), named)
]
