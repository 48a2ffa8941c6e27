-- ===== src/Process/Tests.antt =====
-- A signal to the second thread of four, and a file opened by the idle thread.
use bare_metal_os.Base.{ℕ, ◌<◌, ◌≡◌, refl, ◌≢◌, ◌⊎◌, none, some, arith}
use bare_metal_os.Kernel.{status_of, find_pid, vfs_close, aborted}
use bare_metal_os.Threads.{
  enqueue, behind, up_to, first_runnable, pick_next, hand_over, schedule, wake_parent,
}
use bare_metal_os.Threads.Create.{fresh_thread, thread_create}
use bare_metal_os.Threads.Running.{IsScheduled}
use bare_metal_os.Threads.Tests.{four, four-IsTidy}
use bare_metal_os.Process.{fail, abort_thread, live_thread, sys_kill, file_of, free_fd, sys_open}
use bare_metal_os.Process.Steps.{Reach-IsScheduled, Reach, schedules, kills, creates, start, then}
use bare_metal_os.Process.Errors.{IsRefused, IsSent, sys_kill_lem}
use bare_metal_os.Process.Files.{sys_open_lem}

killed : status_of (sys_kill 1 9 four).1 200 ≡ aborted
unfolding sys_kill live_thread find_pid abort_thread wake_parent enqueue fresh_thread
killed = refl

not_the_idle_thread : (sys_kill 0 9 four).0 ≡ fail
unfolding sys_kill live_thread find_pid enqueue fresh_thread
not_the_idle_thread = refl

first_descriptor : (sys_open (some 77) four).0 ≡ 0
unfolding sys_open free_fd enqueue fresh_thread
first_descriptor = refl

four-IsScheduled : IsScheduled four
unfolding enqueue fresh_thread
four-IsScheduled = record { tidy = four-IsTidy; runs = refl }

-- The idle thread yields, the next thread is killed by a signal, and a new one is made.
three_steps : Reach four (thread_create 500 600 0 0 0 (sys_kill 1 9 (schedule four)).1).1
unfolding sys_kill live_thread find_pid schedule hand_over pick_next first_runnable behind up_to
    enqueue fresh_thread abort_thread wake_parent
three_steps =
    then (then (then start schedules) (kills 1 9)) (creates 500 600 0 0 0 (omega arith, refl))

Reach-IsScheduled_example :
    IsScheduled (thread_create 500 600 0 0 0 (sys_kill 1 9 (schedule four)).1).1
Reach-IsScheduled_example = Reach-IsScheduled three_steps four-IsScheduled

sys_open_lem_example :
    let k' = (sys_open (some 77) four).1 in
    let fd = (sys_open (some 77) four).0 in
    ((fd ≡ fail)
      × (k' ≡ vfs_close 77 four)
      × ((i : ℕ) → i < 16 → (g : ℕ) × (file_of i four ≡ some g)))
    ⊎ ((fd < 16)
        × (file_of fd four ≡ none)
        × ((i : ℕ) → i < fd → (g : ℕ) × (file_of i four ≡ some g))
        × (file_of fd k' ≡ some 77)
        × ((i : ℕ) → i ≢ fd → file_of i k' ≡ file_of i four)
        × ((t : ℕ) → t ≢ 100 → k'.threads t ≡ four.threads t))
unfolding fresh_thread
sys_open_lem_example = sys_open_lem 77 four (omega arith) refl

sys_kill_lem_example : IsRefused 1 9 four ⊎ ((t : ℕ) × IsSent 1 9 four t)
sys_kill_lem_example = sys_kill_lem 1 9 four
