-- ===== src/Threads/Running.antt =====
-- src/thread.c: the current thread is in the run queue, and it alone is RUNNING.
use bare_metal_os.Base.{
  ℕ, ◌+◌, ◌≤◌, ◌<◌, ◌≡◌, refl, ap, ◌≢◌, ◌⊎◌, inl, inr, true, false, some, List, [], ◌∷◌, ◌++◌,
  arith, ◌==◌, Option-cases, count,
}
use bare_metal_os.Kernel.{
  is_runnable, is_running, status_of, set_status, find_pid, Status, Thread, Kernel, running,
  terminated,
}
use bare_metal_os.Threads.{
  behind, up_to, ring_from, first_runnable, idle_thread, pick_next, hand_over, schedule,
  thread_wakeup_callback, wake_parent, thread_exit,
}

-- No thread is queued twice, and the current one is queued; no other queued thread is RUNNING.
pub record IsTidy (k : Kernel) : Type 0 where
  pub exists : (t : ℕ) → 0 < count t k.run_queue → 0 < t
  pub queued : count k.current k.run_queue ≡ 1
  pub once : (t : ℕ) → count t k.run_queue ≤ 1
  pub alone : (t : ℕ) → 0 < count t k.run_queue → status_of k t ≡ running → t ≡ k.current

-- What holds between two calls: the current thread can run. It is RUNNING, but for a sleep that
-- failed, which leaves it READY.
pub record IsScheduled (k : Kernel) : Type 0 where
  pub tidy : IsTidy k
  pub runs : is_runnable (status_of k k.current) ≡ true

-- Two kernels with the same threads queued, the same current thread, and no thread set RUNNING.
pub IsTidy-transfer :
    (k k' : Kernel)
    → k'.current ≡ k.current
    → k'.run_queue ≡ k.run_queue
    → ((t : ℕ) → status_of k' t ≡ running → status_of k t ≡ running)
    → IsTidy k
    → IsTidy k'
IsTidy-transfer k k' c q s i = record {
  exists = λ t m. i.exists t (rw (← q) m);
  queued = rw (c, q) i.queued;
  once = λ t. rw q (i.once t);
  alone = λ t m r. rw c (i.alone t (rw (← q) m) (s t r));
}

pub count-append : (a : ℕ) (xs ys : List ℕ) → count a (xs ++ ys) ≡ count a xs + count a ys
count-append a [] ys = omega arith
count-append a (x ∷ xs) ys = ground (arith, count-append a xs ys)

pub count-ring :
    (a t : ℕ) (queue : List ℕ) → count a (behind t queue) + count a (up_to t queue) ≡ count a queue
unfolding behind up_to
count-ring a t [] = refl
count-ring a t (x ∷ xs) = ground (arith, count-ring a t xs)

first_runnable-count :
    (threads : ℕ → Thread) (ts : List ℕ) (t : ℕ)
    → first_runnable threads ts ≡ some t
    → (0 < count t ts) × (is_runnable (threads t).status ≡ true)
unfolding first_runnable
first_runnable-count threads [] t e = cc
first_runnable-count threads (x ∷ ts) t e = ground (arith, first_runnable-count threads ts t)

pub find_pid-count :
    (threads : ℕ → Thread) (pid : ℕ) (ts : List ℕ) (t : ℕ)
    → find_pid threads pid ts ≡ some t
    → (0 < count t ts) × ((threads t).pid ≡ pid)
unfolding find_pid
find_pid-count threads pid [] t e = cc
find_pid-count threads pid (x ∷ ts) t e = ground (arith, find_pid-count threads pid ts t)

idle_thread-count :
    (threads : ℕ → Thread) (queue : List ℕ) (prev : ℕ)
    → 0 < count prev queue
    → 0 < count (idle_thread threads queue prev) queue
unfolding idle_thread
idle_thread-count threads [] prev h = absurd (omega arith)
idle_thread-count threads (x ∷ rest) prev h = elim (Option-cases (find_pid threads 0 (x ∷ rest))) [
  | inl e ↦
      let t : idle_thread threads (x ∷ rest) prev ≡ x = rw (e, idle_thread) refl in
      rw t (ground arith)
  | inr (t, e) ↦
      let found : idle_thread threads (x ∷ rest) prev ≡ t = rw (e, idle_thread) refl in
      omega (arith, ap (λ u. count u (x ∷ rest)) found, (find_pid-count threads 0 (x ∷ rest) t e).0)
]

-- The thread that is picked is queued.
pub pick_next-count :
    (k : Kernel) → 0 < count k.current k.run_queue → 0 < count (pick_next k) k.run_queue
unfolding pick_next
pick_next-count k h =
    elim (Option-cases (first_runnable k.threads (ring_from k.current k.run_queue))) [
      | inl e ↦ rw (e, pick_next) (idle_thread-count k.threads k.run_queue k.current h)
      | inr (t, e) ↦
          rw (e, pick_next)
            (omega (
              arith,
              first_runnable-count k.threads (ring_from k.current k.run_queue) t e,
              count-append t (behind k.current k.run_queue) (up_to k.current k.run_queue),
              count-ring t k.current k.run_queue,
            ))
    ]

pub hand_over-fields :
    (p n : ℕ) (k : Kernel)
    → ((hand_over p n k).run_queue ≡ k.run_queue)
      × ((hand_over p n k).current ≡ k.current)
      × (status_of (hand_over p n k) n ≡ running)
      × ((t : ℕ)
          → status_of (hand_over p n k) t ≡ running
          → (t ≡ n) ⊎ ((t ≢ p) × (status_of k t ≡ running)))
unfolding hand_over
hand_over-fields p n k = (ground arith, ground arith, ground arith, λ t r. ground arith)

pub schedule-hand_over :
    (k : Kernel)
    → 0 < k.current
    → schedule k ≡ record (hand_over k.current (pick_next k) k) { current = pick_next k }
unfolding schedule
schedule-hand_over k h =
    let some_thread : (k.current == 0) ≡ false = ground arith in rw (some_thread, schedule) refl

-- From a tidy state, `schedule` leaves no queued thread RUNNING but the one that it switches to.
pub schedule-IsScheduled : (k : Kernel) → IsTidy k → IsScheduled (schedule k)
schedule-IsScheduled k i =
    let here : 0 < count k.current k.run_queue = omega (arith, i.queued) in
    let there = pick_next-count k here in
    let (queue, same, runs, others) = hand_over-fields k.current (pick_next k) k in
    rw (schedule-hand_over k (i.exists k.current here)) (record {
      tidy = record {
        exists = λ t m. i.exists t (rw (← queue) m);
        queued = rw queue (omega (arith, there, i.once (pick_next k)));
        once = λ t. rw queue (i.once t);
        alone = λ t m r. elim (others t r) [
          | inl e ↦ e
          | inr (other, e) ↦ absurd (other (i.alone t (rw (← queue) m) e))
        ];
      };
      runs = ap is_runnable runs;
    })

-- A thread that is set to another status than RUNNING.
pub set_status-IsTidy :
    (t : ℕ) (status : Status) (k : Kernel)
    → is_running status ≡ false
    → IsTidy k
    → IsTidy (set_status t status k)
set_status-IsTidy t status k h i =
    IsTidy-transfer k (set_status t status k) refl refl (λ x r. ground arith) i

pub wake_parent-IsTidy : (t : ℕ) (k : Kernel) → IsTidy k → IsTidy (wake_parent t k)
unfolding wake_parent
wake_parent-IsTidy t k i =
    IsTidy-transfer k (wake_parent t k) (ground arith) (ground arith) (λ x r. ground arith) i

pub thread_exit-IsScheduled : (k : Kernel) → IsTidy k → IsScheduled (thread_exit k)
unfolding thread_exit
thread_exit-IsScheduled k i =
    let here : 0 < k.current = i.exists k.current (omega (arith, i.queued)) in
    let some_thread : (k.current == 0) ≡ false = ground arith in
    rw (some_thread, thread_exit)
      (schedule-IsScheduled _ (
        wake_parent-IsTidy k.current (set_status k.current terminated k)
          (set_status-IsTidy k.current terminated k refl i)))

pub thread_wakeup_callback-IsScheduled :
    (t : ℕ) (k : Kernel) → IsScheduled k → IsScheduled (thread_wakeup_callback t k)
unfolding thread_wakeup_callback
thread_wakeup_callback-IsScheduled t k i = record {
  tidy =
      IsTidy-transfer k (thread_wakeup_callback t k) (ground arith) (ground arith)
        (λ x r. ground arith) i.tidy;
  runs = ground (arith, i.runs);
}
