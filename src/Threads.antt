-- ===== src/Threads.antt =====
-- src/thread.c: the run queue, the scheduler, sleeping, and the end of a thread.
pub mod Zombies
pub mod Create
pub mod Running
pub mod RoundRobin
pub mod Reaped
pub mod Tests
use bare_metal_os.Base.{
  ℕ, ◌*◌, ◌/◌, ◌%◌, Bool, not, ◌&&◌, ◌||◌, Option, none, some, List, [], ◌∷◌, ◌++◌, ◌==◌,
  if◌then◌else◌, update,
}
use bare_metal_os.Base.Words.{word_mod, minus_one}
use bare_metal_os.Kernel.{
  is_runnable, is_running, is_waiting, status_of, set_status, find_pid, vfs_close, Thread, Kernel,
  running, ready, waiting, terminated,
}

-- KERNEL_STACK_SIZE
abbrev pub kernel_stack_size : ℕ
kernel_stack_size = 0x2000

-- `enqueue`: behind the head of the circular list.
unfoldable pub enqueue : List ℕ → ℕ → List ℕ
enqueue [] t = t ∷ []
enqueue (head ∷ rest) t = head ∷ t ∷ rest

-- The list behind a thread, and the list up to it and with it.
unfoldable pub behind : ℕ → List ℕ → List ℕ
behind t [] = []
behind t (x ∷ xs) = let rest = behind t xs in if x == t then xs else rest

unfoldable pub up_to : ℕ → List ℕ → List ℕ
up_to t [] = []
up_to t (x ∷ xs) = let rest = up_to t xs in if x == t then x ∷ [] else x ∷ rest

-- The circular list from `t->next` to `t`.
abbrev pub ring_from : ℕ → List ℕ → List ℕ
ring_from t queue = behind t queue ++ up_to t queue

-- while (1) of `schedule`: the first thread that is READY or RUNNING.
unfoldable pub first_runnable : (ℕ → Thread) → List ℕ → Option ℕ
first_runnable threads [] = none
first_runnable threads (t ∷ ts) =
    let rest = first_runnable threads ts in if is_runnable (threads t).status then some t else rest

-- The fallback: the thread with PID 0, or else the head of the queue.
unfoldable pub idle_thread : (ℕ → Thread) → List ℕ → ℕ → ℕ
idle_thread threads [] prev = prev
idle_thread threads (head ∷ rest) prev = elim (find_pid threads 0 (head ∷ rest)) [
  | none ↦ head
  | some t ↦ t
]

-- The thread that `schedule` picks.
unfoldable pub pick_next : Kernel → ℕ
pick_next k = elim (first_runnable k.threads (ring_from k.current k.run_queue)) [
  | none ↦ idle_thread k.threads k.run_queue k.current
  | some t ↦ t
]

-- next->pgd ? next->pgd : kernel_pgd
abbrev pub pgd_of : Kernel → ℕ → ℕ
pgd_of k t = if (k.threads t).pgd == 0 then k.kernel_pgd else (k.threads t).pgd

-- The statuses of the two threads, and satp where the page directory changes.
unfoldable pub hand_over : ℕ → ℕ → Kernel → Kernel
hand_over prev next k =
    let k1 : Kernel = if is_running (status_of k prev) then set_status prev ready k else k in
    let k2 : Kernel = set_status next running k1 in
    if pgd_of k next == pgd_of k prev then k2 else record k2 { address_space = pgd_of k next }

-- `schedule` up to `switch_to`, from where the next thread runs. The current thread is queued.
unfoldable pub schedule : Kernel → Kernel
schedule k =
    if k.current == 0
    then k
    else record (hand_over k.current (pick_next k) k) { current = pick_next k }

-- `thread_wakeup_callback`
unfoldable pub thread_wakeup_callback : ℕ → Kernel → Kernel
thread_wakeup_callback t k = if is_waiting (status_of k t) then set_status t ready k else k

-- The ticks that `thread_sleep` asks for.
abbrev pub sleep_ticks : ℕ → ℕ → ℕ
sleep_ticks usec time_freq = usec * time_freq % word_mod / 1000000

-- `thread_sleep`: with `armed` false, `add_timer_ticks` failed. The result is that of the call.
unfoldable pub thread_sleep : Bool → Kernel → ℕ × Kernel
thread_sleep armed k =
    let waits : Kernel = set_status k.current waiting k in
    if k.current == 0
    then (minus_one, k)
    else if armed
    then (0, schedule waits)
    else (minus_one, set_status k.current ready waits)

-- Wake the parent up if it waits for this thread, or for any.
unfoldable pub wake_parent : ℕ → Kernel → Kernel
wake_parent t k =
    let parent : ℕ = (k.threads t).parent in
    let p : Thread = k.threads parent in
    if not (parent == 0)
      && (is_waiting p.status
          && ((p.waiting_pid == (k.threads t).pid) || (p.waiting_pid == minus_one)))
    then record k {
      threads = update k.threads parent (record p { status = ready; waiting_pid = minus_one });
    }
    else k

-- `thread_exit`
unfoldable pub thread_exit : Kernel → Kernel
thread_exit k =
    if k.current == 0
    then schedule k
    else schedule (wake_parent k.current (set_status k.current terminated k))

-- for (int i = 0; i < 16; i++) over the file table: each file is closed.
unfoldable pub close_files : List ℕ → Kernel → Kernel
close_files [] k = k
close_files (f ∷ fdt) k = close_files fdt (if f == 0 then k else vfs_close f k)
