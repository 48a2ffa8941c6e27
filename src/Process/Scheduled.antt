-- ===== src/Process/Scheduled.antt =====
-- src/thread.c and src/syscall.c: each call keeps the invariant of the scheduler.
use bare_metal_os.Base.{
  ℕ, ◌<◌, ◌≡◌, refl, sym, ap, ◌∙◌, ◌≢◌, inl, inr, Bool, true, false, ◌||◌, some, List, [], ◌∷◌,
  arith, ◌==◌, Bool-cases, Option-cases, count,
}
use native.Mathlib.Decide.{ℕ_discrete}
use bare_metal_os.Kernel.{
  is_runnable, is_zombie, status_of, set_status, find_pid, Kernel, running, ready, waiting, aborted,
}
use bare_metal_os.Threads.{enqueue, schedule, thread_sleep, wake_parent}
use bare_metal_os.Threads.Create.{fresh_thread, with_files, thread_create}
use bare_metal_os.Threads.Running.{
  IsTidy-transfer, find_pid-count, schedule-IsScheduled, thread_exit-IsScheduled, IsScheduled,
}
use bare_metal_os.Threads.Reaped.{close_files-fields}
use bare_metal_os.Process.{
  not_positive, no_signal, sys_waitpid, sys_exit, abort_thread, live_thread, sys_stop, pend,
  sys_kill,
}
use bare_metal_os.Process.Fork.{fork_pgd, child_of, sys_fork, ForkPlan}

-- A struct that `allocate` gives is not that of a queued thread.
abbrev pub IsNew : ℕ → Kernel → Type 0
IsNew t k = (0 < t) × (count t k.run_queue ≡ 0)

count-enqueue : (x t : ℕ) (queue : List ℕ) → count x (enqueue queue t) ≡ count x (t ∷ queue)
unfolding enqueue
count-enqueue x t [] = refl
count-enqueue x t (head ∷ rest) = ground arith

-- A new thread that is not RUNNING is queued.
queue-IsScheduled :
    (t : ℕ) (k k' : Kernel)
    → IsNew t k
    → k'.current ≡ k.current
    → k'.run_queue ≡ enqueue k.run_queue t
    → ((x : ℕ) → x ≢ t → status_of k' x ≡ status_of k x)
    → status_of k' t ≡ ready
    → IsScheduled k
    → IsScheduled k'
queue-IsScheduled t k k' new c q same fresh i =
    let counted = λ (x : ℕ). ap (count x) q ∙ count-enqueue x t k.run_queue in
    let other : k.current ≢ t =
      λ e. omega (arith, ap (λ u. count u k.run_queue) e, new, i.tidy.queued) in
    record {
      tidy = record {
        exists = λ x m. ground (arith, counted x, i.tidy.exists x);
        queued = rw c (ground (arith, counted k.current, i.tidy.queued));
        once = λ x. ground (arith, counted x, i.tidy.once x, new.1, ap (λ u. count u k.run_queue));
        alone = λ x m r. elim (ℕ_discrete x t) [
          | yes e ↦
              let both : ready ≡ running = sym fresh ∙ ap (status_of k') (sym e) ∙ r in absurd cc
          | no ne ↦
              let there : 0 < count x k.run_queue = ground (arith, counted x) in
              rw c (i.tidy.alone x there (sym (same x ne) ∙ r))
        ];
      };
      runs = rw c (ap is_runnable (same k.current other) ∙ i.runs);
    }

-- Calls that queue nothing and set no thread RUNNING.
keep-IsScheduled :
    (k k' : Kernel)
    → k'.current ≡ k.current
    → k'.run_queue ≡ k.run_queue
    → ((t : ℕ) → status_of k' t ≡ running → status_of k t ≡ running)
    → is_runnable (status_of k' k.current) ≡ true
    → IsScheduled k
    → IsScheduled k'
keep-IsScheduled k k' c q s r i = record { tidy = IsTidy-transfer k k' c q s i.tidy; runs = rw c r }

schedule_of-IsScheduled :
    (k k' : Kernel)
    → k'.current ≡ k.current
    → k'.run_queue ≡ k.run_queue
    → ((t : ℕ) → status_of k' t ≡ running → status_of k t ≡ running)
    → IsScheduled k
    → IsScheduled (schedule k')
schedule_of-IsScheduled k k' c q s i = schedule-IsScheduled k' (IsTidy-transfer k k' c q s i.tidy)

pub sys_exit-IsScheduled : (k : Kernel) → IsScheduled k → IsScheduled (sys_exit k)
unfolding sys_exit
sys_exit-IsScheduled k i =
    let (a, b, c, d) = close_files-fields (k.threads k.current).fdt k in
    thread_exit-IsScheduled _ (IsTidy-transfer k _ c b (λ t r. ground arith) i.tidy)

pub thread_sleep-IsScheduled :
    (armed : Bool) (k : Kernel) → IsScheduled k → IsScheduled (thread_sleep armed k).1
unfolding thread_sleep
thread_sleep-IsScheduled armed k i =
    let here : 0 < k.current = i.tidy.exists k.current (omega (arith, i.tidy.queued)) in
    let some_thread : (k.current == 0) ≡ false = ground arith in
    elim (Bool-cases armed) [
      | inl e ↦
          rw (thread_sleep, some_thread, e)
            (schedule_of-IsScheduled k (set_status k.current waiting k) refl refl
              (λ t r. ground arith) i)
      | inr e ↦
          rw (thread_sleep, some_thread, e)
            (keep-IsScheduled k (set_status k.current ready (set_status k.current waiting k)) refl
              refl (λ t r. ground arith) (ground arith) i)
    ]

pub sys_waitpid-IsScheduled :
    (pid : ℕ) (k : Kernel) → IsScheduled k → IsScheduled (sys_waitpid pid k).1
unfolding sys_waitpid
sys_waitpid-IsScheduled pid k i = elim (Option-cases (find_pid k.threads pid k.run_queue)) [
  | inl e ↦ rw (sys_waitpid, e) i
  | inr (t, e) ↦ elim (Bool-cases (is_zombie (status_of k t))) [
    | inl z ↦ rw (sys_waitpid, e, z) i
    | inr z ↦ rw (sys_waitpid, e, z) (schedule_of-IsScheduled k _ refl refl (λ x r. ground arith) i)
  ]
]

wake_parent-runnable :
    (t x : ℕ) (k : Kernel)
    → is_runnable (status_of k x) ≡ true
    → is_runnable (status_of (wake_parent t k) x) ≡ true
unfolding wake_parent
wake_parent-runnable t x k h = ground arith

wake_parent-fields :
    (t : ℕ) (k : Kernel)
    → ((wake_parent t k).current ≡ k.current)
      × ((wake_parent t k).run_queue ≡ k.run_queue)
      × ((x : ℕ) → status_of (wake_parent t k) x ≡ running → status_of k x ≡ running)
unfolding wake_parent
wake_parent-fields t k = (ground arith, ground arith, λ x r. ground arith)

set_aborted :
    (target t : ℕ) (k : Kernel)
    → status_of (set_status target aborted k) t ≡ running
    → status_of k t ≡ running
set_aborted target t k r = ground arith

abort_thread-IsScheduled :
    (target : ℕ) (k : Kernel) → IsScheduled k → IsScheduled (abort_thread target k)
unfolding abort_thread
abort_thread-IsScheduled target k i =
    let marked : Kernel = set_status target aborted k in
    let (c, q, s) = wake_parent-fields target marked in
    let mark = λ (t : ℕ) (r : status_of marked t ≡ running). set_aborted target t k r in
    elim (Bool-cases (target == k.current)) [
      | inl e ↦ rw (abort_thread, e) (schedule_of-IsScheduled k _ c q (λ t r. mark t (s t r)) i)
      | inr e ↦
          rw (abort_thread, e)
            (keep-IsScheduled k _ c q (λ t r. mark t (s t r))
              (wake_parent-runnable target k.current marked (ground (arith, i.runs))) i)
    ]

pub live_thread-some :
    (pid t : ℕ) (k : Kernel)
    → live_thread pid k ≡ some t
    → (0 < count t k.run_queue) × ((k.threads t).pid ≡ pid) × (is_zombie (status_of k t) ≡ false)
unfolding live_thread
live_thread-some pid t k e = ground (arith, find_pid-count k.threads pid k.run_queue t)

pub sys_stop-IsScheduled : (pid : ℕ) (k : Kernel) → IsScheduled k → IsScheduled (sys_stop pid k).1
unfolding sys_stop
sys_stop-IsScheduled pid k i = elim (Option-cases (live_thread pid k)) [
  | inl e ↦ rw (sys_stop, e) i
  | inr (t, e) ↦ elim (Bool-cases (not_positive pid)) [
    | inl p ↦ rw (sys_stop, e, p) i
    | inr p ↦ rw (sys_stop, e, p) (abort_thread-IsScheduled t k i)
  ]
]

pub sys_kill-IsScheduled :
    (pid signum : ℕ) (k : Kernel) → IsScheduled k → IsScheduled (sys_kill pid signum k).1
unfolding sys_kill
sys_kill-IsScheduled pid signum k i = elim (Option-cases (live_thread pid k)) [
  | inl e ↦ rw (sys_kill, e) i
  | inr (t, e) ↦ elim (Bool-cases (no_signal signum || not_positive pid)) [
    | inl p ↦ rw (sys_kill, e, p) i
    | inr p ↦ elim (Bool-cases ((k.threads t).signal_handler signum == 0)) [
      | inl h ↦ rw (sys_kill, e, p, h) (abort_thread-IsScheduled t k i)
      | inr h ↦
          rw (sys_kill, e, p, h)
            (keep-IsScheduled k (pend t signum k) refl refl (λ x r. ground arith)
              (ground (arith, i.runs)) i)
    ]
  ]
]

pub thread_create-IsScheduled :
    (t base rootfs wrapper threadfn : ℕ) (k : Kernel)
    → IsNew t k
    → IsScheduled k
    → IsScheduled (thread_create t base rootfs wrapper threadfn k).1
unfolding thread_create with_files fresh_thread
thread_create-IsScheduled t base rootfs wrapper threadfn k new i =
    let given : (t == 0) ≡ false = ground arith in
    rw (thread_create, given)
      (queue-IsScheduled t k _ new refl refl (λ x ne. ground arith) (ground arith) i)

pub sys_fork-IsScheduled :
    (plan : ForkPlan) (regs : ℕ) (k : Kernel)
    → IsNew plan.child k
    → IsScheduled k
    → IsScheduled (sys_fork plan regs k).1
unfolding sys_fork child_of
sys_fork-IsScheduled plan regs k new i =
    let given : (plan.child == 0) ≡ false = ground arith in
    let quiet =
      λ (x : Kernel) (c : x.current ≡ k.current) (q : x.run_queue ≡ k.run_queue)
          (s : x.threads ≡ k.threads).
        keep-IsScheduled k x c q (λ t r. ap (λ f. (f t).status) (sym s) ∙ r)
          (ap (λ f. is_runnable (f k.current).status) s ∙ i.runs) i in
    elim (Bool-cases (plan.stack == 0)) [
      | inl e ↦ rw (sys_fork, given, e) (quiet _ refl refl refl)
      | inr e ↦ elim (Bool-cases ((fork_pgd (k.threads k.current) k).0 == 0)) [
        | inl p ↦ rw (sys_fork, given, e, p) (quiet _ refl refl refl)
        | inr p ↦
            rw (sys_fork, given, e, p)
              (queue-IsScheduled plan.child k _ new refl refl (λ x ne. ground arith) (ground arith)
                i)
      ]
    ]
