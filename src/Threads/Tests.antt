-- ===== src/Threads/Tests.antt =====
-- The idle thread runs, a second thread is READY, a third has ended, and the fourth sleeps.
use bare_metal_os.Base.{ℕ, ◌+◌, ◌≤◌, ◌≡◌, refl, [], ◌∷◌, arith, length, update}
use bare_metal_os.Mmu.{Tables}
use bare_metal_os.Kernel.{Status, Kernel, running, ready, waiting, terminated}
use bare_metal_os.Threads.{
  enqueue, behind, up_to, first_runnable, pick_next, hand_over, schedule, close_files,
}
use bare_metal_os.Threads.Zombies.{reap, sweep, sweep_queue, kill_zombies}
use bare_metal_os.Threads.Create.{no_regs, fresh_thread}
use bare_metal_os.Threads.Running.{IsTidy}
use bare_metal_os.Threads.RoundRobin.{schedules, schedules_reach}
use bare_metal_os.Threads.Reaped.{HeadLives, IsSwept, kill_zombies-IsSwept}

abbrev no_pages : Tables
no_pages = record { entry = λ _ _. 0; bytes = λ _ _. 0; owners = λ _. 0; fresh = []; freed = [] }

abbrev nothing : Kernel
nothing = record {
  threads = λ t. record (fresh_thread 0 0 0 0 0x9000) { status = terminated };
  run_queue = [];
  nr_threads = 0;
  current = 0;
  kernel_pgd = 0x9000;
  address_space = 0x9000;
  files = λ _. record { vnode = 0; f_pos = 0; flags = 0; ref_count = 0 };
  freed = [];
  tables = no_pages;
  frames = λ _. no_regs;
}

-- A thread at an address, with its PID and status, a child of the idle thread.
abbrev thread_at : ℕ → ℕ → Status → Kernel → Kernel
thread_at t pid status k = record k {
  threads =
      update k.threads t (record (fresh_thread pid 0 0 0 0x9000) { status = status; parent = 100 });
  run_queue = enqueue k.run_queue t;
  nr_threads = k.nr_threads + 1;
}

abbrev pub four : Kernel
four =
    record (thread_at 400 3 waiting
      (thread_at 300 2 terminated (thread_at 200 1 ready (thread_at 100 0 running nothing)))) {
        current = 100;
      }

pub four-IsTidy : IsTidy four
unfolding enqueue fresh_thread
four-IsTidy = record {
  exists = λ t m. ground arith;
  queued = refl;
  once = λ t. ground arith;
  alone = λ t m r. ground arith;
}

pub four-HeadLives : HeadLives four four.run_queue
unfolding enqueue fresh_thread
four-HeadLives = refl

second_runs : (schedule four).current ≡ 200
unfolding schedule hand_over pick_next first_runnable behind up_to enqueue fresh_thread
second_runs = refl

third_freed : (kill_zombies four).run_queue ≡ 100 ∷ 400 ∷ 200 ∷ []
unfolding kill_zombies sweep_queue sweep reap close_files enqueue fresh_thread
third_freed = refl

schedules_reach_example : (m : ℕ) × (m ≤ length four.run_queue) × ((schedules m four).current ≡ 200)
unfolding enqueue fresh_thread
schedules_reach_example = schedules_reach four 200 four-IsTidy (omega arith) refl

kill_zombies-IsSwept_example : IsSwept four four.run_queue (kill_zombies four)
unfolding enqueue
kill_zombies-IsSwept_example = kill_zombies-IsSwept four four-HeadLives (omega arith)
