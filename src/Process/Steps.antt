-- ===== src/Process/Steps.antt =====
-- src/thread.c and src/syscall.c: the calls that change the run queue or a status, as steps.
use bare_metal_os.Base.{ℕ, ◌≤◌, Bool, length}
use bare_metal_os.Kernel.{Kernel}
use bare_metal_os.Threads.{schedule, thread_wakeup_callback, thread_sleep}
use bare_metal_os.Threads.Zombies.{kill_zombies}
use bare_metal_os.Threads.Create.{thread_create}
use bare_metal_os.Threads.Running.{
  schedule-IsScheduled, thread_wakeup_callback-IsScheduled, IsScheduled,
}
use bare_metal_os.Threads.Reaped.{HeadLives, kill_zombies-IsScheduled}
use bare_metal_os.Process.{sys_waitpid, sys_exit, sys_stop, sys_kill}
use bare_metal_os.Process.Fork.{sys_fork, ForkPlan}
use bare_metal_os.Process.Scheduled.{
  IsNew, sys_exit-IsScheduled, thread_sleep-IsScheduled, sys_waitpid-IsScheduled,
  sys_stop-IsScheduled, sys_kill-IsScheduled, thread_create-IsScheduled, sys_fork-IsScheduled,
}

-- One call, by the current thread or by an interrupt; the idle thread calls `kill_zombies`.
pub data Step (k : Kernel) : Kernel → Type 0 where
  schedules : Step k (schedule k)
  wakes : (t : ℕ) → Step k (thread_wakeup_callback t k)
  sleeps : (armed : Bool) → Step k (thread_sleep armed k).1
  exits : Step k (sys_exit k)
  waits : (pid : ℕ) → Step k (sys_waitpid pid k).1
  stops : (pid : ℕ) → Step k (sys_stop pid k).1
  kills : (pid signum : ℕ) → Step k (sys_kill pid signum k).1
  creates :
      (t base rootfs wrapper threadfn : ℕ)
      → IsNew t k
      → Step k (thread_create t base rootfs wrapper threadfn k).1
  forks : (plan : ForkPlan) (regs : ℕ) → IsNew plan.child k → Step k (sys_fork plan regs k).1
  reaps : HeadLives k k.run_queue → length k.run_queue ≤ k.nr_threads → Step k (kill_zombies k)

pub data Reach (k : Kernel) : Kernel → Type 0 where
  start : Reach k k
  then : {l m : Kernel} → Reach k l → Step l m → Reach k m

Step-IsScheduled : {k k' : Kernel} → Step k k' → IsScheduled k → IsScheduled k'
Step-IsScheduled {k = k} schedules i = schedule-IsScheduled k i.tidy
Step-IsScheduled {k = k} (wakes t) i = thread_wakeup_callback-IsScheduled t k i
Step-IsScheduled {k = k} (sleeps armed) i = thread_sleep-IsScheduled armed k i
Step-IsScheduled {k = k} exits i = sys_exit-IsScheduled k i
Step-IsScheduled {k = k} (waits pid) i = sys_waitpid-IsScheduled pid k i
Step-IsScheduled {k = k} (stops pid) i = sys_stop-IsScheduled pid k i
Step-IsScheduled {k = k} (kills pid signum) i = sys_kill-IsScheduled pid signum k i
Step-IsScheduled {k = k} (creates t base rootfs wrapper threadfn new) i =
    thread_create-IsScheduled t base rootfs wrapper threadfn k new i
Step-IsScheduled {k = k} (forks plan regs new) i = sys_fork-IsScheduled plan regs k new i
Step-IsScheduled {k = k} (reaps z h) i = kill_zombies-IsScheduled k z h i

-- Whatever sequence of these calls follows, with new structs for new threads: if the current thread
-- is queued and can run, no thread is queued twice, and no queued thread but the current one is
-- RUNNING, then the same holds afterwards.
pub Reach-IsScheduled : {k k' : Kernel} → Reach k k' → IsScheduled k → IsScheduled k'
Reach-IsScheduled start i = i
Reach-IsScheduled (then r s) i = Step-IsScheduled s (Reach-IsScheduled r i)
