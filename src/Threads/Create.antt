-- ===== src/Threads/Create.antt =====
-- src/thread.c: `thread_create` and the set-up of the idle thread.
use bare_metal_os.Base.{ℕ, false, List, [], ◌∷◌, ◌==◌, if◌then◌else◌, replicate, update}
use bare_metal_os.Base.Words.{minus_one, add64, inc32}
use bare_metal_os.Kernel.{set_status, PtRegs, Thread, File, Kernel, running, ready}
use bare_metal_os.Threads.{kernel_stack_size, enqueue}

-- t->fdt[i]->ref_count++ for each open file.
unfoldable pub share_files : List ℕ → (ℕ → File) → ℕ → File
share_files [] files = files
share_files (f ∷ fdt) files = share_files fdt (
    if f == 0
    then files
    else update files f (record (files f) { ref_count = inc32 (files f).ref_count }))

abbrev pub no_regs : PtRegs
no_regs = record {
  ra = 0;
  sp = 0;
  tp = 0;
  a0 = 0;
  a1 = 0;
  a2 = 0;
  a3 = 0;
  a4 = 0;
  a7 = 0;
  epc = 0;
  cause = 0;
  badaddr = 0;
}

-- A thread cleared and then filled in, without the file system.
unfoldable pub fresh_thread : ℕ → ℕ → ℕ → ℕ → ℕ → Thread
fresh_thread pid base wrapper threadfn kernel_pgd = record {
  context_ra = wrapper;
  context_sp = add64 base kernel_stack_size;
  pid = pid;
  status = ready;
  kernel_stack = base;
  user_stack = 0;
  parent = 0;
  waiting_pid = minus_one;
  entry_func = threadfn;
  pgd = kernel_pgd;
  vmas = [];
  signal_handler = λ _. 0;
  sigpending = 0;
  is_handling_signal = false;
  signal_saved_regs = no_regs;
  signal_stack_page = 0;
  signal_stack_vaddr = 0;
  cwd = 0;
  root = 0;
  fdt = replicate 16 0;
}

-- cwd, root and the file table of the current thread, or the root of the file system without one.
unfoldable pub with_files : ℕ → Thread → Kernel → Thread
with_files rootfs t k =
    let c : Thread = k.threads k.current in
    if k.current == 0
    then record t { cwd = rootfs; root = rootfs }
    else record t { cwd = c.cwd; root = c.root; fdt = c.fdt }

-- `thread_create` with the addresses of the struct and of the stack that `allocate` gave, 0 for
-- none, and the root vnode of the file system, 0 before there is one. The result is `t`.
unfoldable pub thread_create : ℕ → ℕ → ℕ → ℕ → ℕ → Kernel → ℕ × Kernel
thread_create t base rootfs wrapper threadfn k =
    let new : Thread =
      with_files rootfs (fresh_thread k.nr_threads base wrapper threadfn k.kernel_pgd) k in
    if t == 0 then (0, k) else (
      t,
      record k {
        threads = update k.threads t new;
        files = share_files new.fdt k.files;
        nr_threads = inc32 k.nr_threads;
        run_queue = enqueue k.run_queue t;
      },
    )

-- `init_thread_system`, where `allocate` gives the struct.
unfoldable pub init_thread_system : ℕ → ℕ → ℕ → ℕ → ℕ → Kernel → Kernel
init_thread_system t base rootfs wrapper idle k =
    record (set_status t running (thread_create t base rootfs wrapper idle k).1) { current = t }
