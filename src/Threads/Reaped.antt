-- ===== src/Threads/Reaped.antt =====
-- src/thread.c: what `kill_zombies` leaves in the run queue, and what it frees.
use bare_metal_os.Base.{
  ℕ, zero, suc, ◌+◌, ◌≤◌, ◌≡◌, refl, sym, ap, ◌∙◌, inl, inr, false, List, [], ◌∷◌, ◌++◌, arith,
  ◌==◌, if◌then◌else◌, Bool-cases, length, count,
}
use bare_metal_os.Kernel.{is_runnable, is_zombie, status_of, vfs_close, Freed, Kernel, thread_freed}
use bare_metal_os.Threads.{close_files}
use bare_metal_os.Threads.Zombies.{reap, sweep, sweep_queue, kill_zombies}
use bare_metal_os.Threads.Running.{IsScheduled}

-- The threads of a list that have not ended, and those that have.
abbrev pub alive : Kernel → List ℕ → List ℕ
alive k [] = []
alive k (t ∷ ts) = if is_zombie (status_of k t) then alive k ts else t ∷ alive k ts

abbrev pub dead : Kernel → List ℕ → List ℕ
dead k [] = []
dead k (t ∷ ts) = if is_zombie (status_of k t) then t ∷ dead k ts else dead k ts

-- The threads among what was freed.
abbrev pub threads_freed : List Freed → List ℕ
threads_freed [] = []
threads_freed (thread_freed t ∷ freed) = t ∷ threads_freed freed
threads_freed (_ ∷ freed) = threads_freed freed

vfs_close-fields :
    (f : ℕ) (k : Kernel)
    → ((vfs_close f k).threads ≡ k.threads)
      × ((vfs_close f k).run_queue ≡ k.run_queue)
      × ((vfs_close f k).current ≡ k.current)
      × (threads_freed (vfs_close f k).freed ≡ threads_freed k.freed)
unfolding vfs_close
vfs_close-fields f k = (ground arith, ground arith, ground arith, ground arith)

pub close_files-fields :
    (fdt : List ℕ) (k : Kernel)
    → ((close_files fdt k).threads ≡ k.threads)
      × ((close_files fdt k).run_queue ≡ k.run_queue)
      × ((close_files fdt k).current ≡ k.current)
      × (threads_freed (close_files fdt k).freed ≡ threads_freed k.freed)
unfolding close_files
close_files-fields [] k = (refl, refl, refl, refl)
close_files-fields (f ∷ fdt) k =
    let (a, b, c, d) = close_files-fields fdt (if f == 0 then k else vfs_close f k) in
    let (a', b', c', d') = vfs_close-fields f k in
    (ground arith, ground arith, ground arith, ground arith)

-- `reap` changes no status, queue or current thread, and frees the one thread.
reap-fields :
    (t : ℕ) (k : Kernel)
    → ((x : ℕ) → status_of (reap t k) x ≡ status_of k x)
      × ((reap t k).run_queue ≡ k.run_queue)
      × ((reap t k).current ≡ k.current)
      × (threads_freed (reap t k).freed ≡ t ∷ threads_freed k.freed)
unfolding reap
reap-fields t k =
    let (a, b, c, d) = close_files-fields (k.threads t).fdt k in
    (λ x. ground arith, b, c, ground (arith, d))

alive-same :
    (k k' : Kernel) (ts : List ℕ)
    → ((x : ℕ) → status_of k' x ≡ status_of k x)
    → (alive k' ts ≡ alive k ts) × (dead k' ts ≡ dead k ts)
alive-same k k' [] s = (refl, refl)
alive-same k k' (t ∷ ts) s = ground (arith, alive-same k k' ts s, s t)

-- The part of `sweep` on one thread.
abbrev reap_zombie : ℕ → Kernel → Kernel
reap_zombie t k = if is_zombie (status_of k t) then reap t k else k

reap_zombie-fields :
    (t : ℕ) (k : Kernel)
    → ((x : ℕ) → status_of (reap_zombie t k) x ≡ status_of k x)
      × ((reap_zombie t k).run_queue ≡ k.run_queue)
      × ((reap_zombie t k).current ≡ k.current)
      × (threads_freed (reap_zombie t k).freed ≡ dead k (t ∷ []) ++ threads_freed k.freed)
reap_zombie-fields t k = elim (Bool-cases (is_zombie (status_of k t))) [
  | inl e ↦ rw e (reap-fields t k)
  | inr e ↦ rw e (λ x. refl, refl, refl, refl)
]

pub sweep_lem :
    (n : ℕ) (ts : List ℕ) (k : Kernel)
    → length ts ≤ n
    → ((sweep n ts k).0 ≡ alive k ts)
      × ((x : ℕ) → status_of (sweep n ts k).1 x ≡ status_of k x)
      × ((sweep n ts k).1.current ≡ k.current)
      × ((x : ℕ)
          → count x (threads_freed (sweep n ts k).1.freed)
            ≡ count x (dead k ts) + count x (threads_freed k.freed))
unfolding sweep
sweep_lem zero [] k h = (refl, λ x. refl, refl, λ x. omega arith)
sweep_lem zero (t ∷ ts) k h = absurd (omega arith)
sweep_lem (suc n) [] k h = (refl, λ x. refl, refl, λ x. omega arith)
sweep_lem (suc n) (t ∷ ts) k h =
    let (kept, same, cur, freed) = sweep_lem n ts (reap_zombie t k) (omega arith) in
    let (same', queue', cur', freed') = reap_zombie-fields t k in
    let (left, gone) = alive-same k (reap_zombie t k) ts same' in
    (
      ground (arith, kept, left),
      λ x. same x ∙ same' x,
      cur ∙ cur',
      λ x. ground (arith, freed x, gone, freed'),
    )

-- The queue has a head that has not ended.
abbrev pub HeadLives : Kernel → List ℕ → Type 0
HeadLives k [] = ⊥
HeadLives k (t ∷ ts) = is_zombie (status_of k t) ≡ false

-- What `kill_zombies` does to a queue, as a relation of the kernels before and after.
abbrev pub IsSwept : Kernel → List ℕ → Kernel → Type 0
IsSwept k queue k' =
    (k'.run_queue ≡ alive k queue)
    × ((x : ℕ) → status_of k' x ≡ status_of k x)
    × (k'.current ≡ k.current)
    × ((x : ℕ)
        → count x (threads_freed k'.freed)
          ≡ count x (dead k queue) + count x (threads_freed k.freed))

sweep_queue-IsSwept :
    (n : ℕ) (queue : List ℕ) (k : Kernel)
    → HeadLives k queue
    → length queue ≤ n
    → IsSwept k queue (sweep_queue n queue k)
unfolding sweep_queue
sweep_queue-IsSwept zero [] k z h = absurd z
sweep_queue-IsSwept (suc n) [] k z h = absurd z
sweep_queue-IsSwept zero (head ∷ rest) k z h = absurd (omega arith)
sweep_queue-IsSwept (suc n) (head ∷ rest) k z h =
    let (kept, same, cur, freed) = sweep_lem n rest k (omega arith) in
    rw z (ap (λ ts. head ∷ ts) kept, same, cur, freed)

-- If the thread at the head of the run queue has not ended, and no more threads are queued than
-- were ever created, `kill_zombies` takes exactly the threads that have ended out of the queue,
-- keeps the others in order with their statuses, leaves the current thread, and frees the struct of
-- each of those that have ended once and of no other.
pub kill_zombies-IsSwept :
    (k : Kernel)
    → HeadLives k k.run_queue
    → length k.run_queue ≤ k.nr_threads
    → IsSwept k k.run_queue (kill_zombies k)
unfolding kill_zombies
kill_zombies-IsSwept k z h = sweep_queue-IsSwept k.nr_threads k.run_queue k z h

count-alive :
    (k : Kernel) (ts : List ℕ) (x : ℕ)
    → count x (alive k ts) ≡ (if is_zombie (status_of k x) then 0 else count x ts)
count-alive k [] x = ground arith
count-alive k (t ∷ ts) x = ground (arith, count-alive k ts x)

-- The running thread is not taken out of the queue.
pub kill_zombies-IsScheduled :
    (k : Kernel)
    → HeadLives k k.run_queue
    → length k.run_queue ≤ k.nr_threads
    → IsScheduled k
    → IsScheduled (kill_zombies k)
kill_zombies-IsScheduled k z h i =
    let (kept, same, cur, freed) = kill_zombies-IsSwept k z h in
    let counted = λ (x : ℕ). ap (count x) kept ∙ count-alive k k.run_queue x in
    record {
      tidy = record {
        exists = λ t m. i.tidy.exists t (ground (arith, counted t, m));
        queued = rw cur (ground (arith, counted k.current, i.tidy.queued, i.runs));
        once = λ t. ground (arith, counted t, i.tidy.once t);
        alone = λ t m r. rw cur (i.tidy.alone t (ground (arith, counted t, m)) (sym (same t) ∙ r));
      };
      runs = rw cur (ap is_runnable (same k.current) ∙ i.runs);
    }
