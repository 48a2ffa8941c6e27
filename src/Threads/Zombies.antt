-- ===== src/Threads/Zombies.antt =====
-- src/thread.c: `kill_zombies`, which takes ended threads out of the run queue and frees them.
use bare_metal_os.Base.{
  ℕ, zero, suc, ◌||◌, List, [], ◌∷◌, ◌==◌, if◌then◌else◌, replicate, update, count,
}
use bare_metal_os.Kernel.{
  is_zombie, status_of, Thread, Freed, Kernel, stack_freed, thread_freed, areas_freed,
}
use bare_metal_os.Mmu.{Tables}
use bare_metal_os.Mmu.Copy.{free_pgd}
use bare_metal_os.Threads.{close_files}

-- free(p) if p is not NULL.
abbrev pub free_stack : ℕ → List Freed → List Freed
free_stack p freed = if p == 0 then freed else stack_freed p ∷ freed

-- The table of a zombie closed and cleared, its stacks, page tables, areas and struct freed.
unfoldable pub reap : ℕ → Kernel → Kernel
reap t k =
    let z : Thread = k.threads t in
    let closed : Kernel = close_files z.fdt k in
    let stacks : List Freed = free_stack z.user_stack (free_stack z.kernel_stack closed.freed) in
    let tables : Tables =
      if (z.pgd == 0) || (z.pgd == k.kernel_pgd) then k.tables else free_pgd z.pgd k.tables in
    record closed {
      threads = update k.threads t (record z { fdt = replicate 16 0 });
      freed = thread_freed t ∷ areas_freed z.vmas ∷ stacks;
      tables = tables;
    }

-- The loop behind the head of the queue: what is left of the threads, and the kernel.
unfoldable pub sweep : ℕ → List ℕ → Kernel → List ℕ × Kernel
sweep zero ts k = (ts, k)
sweep (suc count) [] k = ([], k)
sweep (suc count) (t ∷ ts) k =
    let (kept, k') = sweep count ts (if is_zombie (status_of k t) then reap t k else k) in
    (if is_zombie (status_of k t) then kept else t ∷ kept, k')

-- A turn for the head: where it is a zombie, the next thread is the new head, and the loop ends. The
-- count is an `int` in the code: of fewer than 2^31 threads.
unfoldable pub sweep_queue : ℕ → List ℕ → Kernel → Kernel
sweep_queue zero queue k = k
sweep_queue (suc count) [] k = k
sweep_queue (suc count) (head ∷ rest) k =
    let (kept, k') = sweep count rest k in
    if is_zombie (status_of k head)
    then record (reap head k) { run_queue = rest }
    else record k' { run_queue = head ∷ kept }

-- `kill_zombies`
unfoldable pub kill_zombies : Kernel → Kernel
kill_zombies k = sweep_queue k.nr_threads k.run_queue k
