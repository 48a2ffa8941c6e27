-- ===== src/Process/Fork.antt =====
-- src/syscall.c: `sys_fork`.
use bare_metal_os.Base.{ℕ, false, ◌||◌, ◌∷◌, ◌==◌, if◌then◌else◌, update}
use bare_metal_os.Base.Words.{add64, sub64, inc32}
use bare_metal_os.Vma.{copy_vma_list}
use bare_metal_os.Mmu.{Tables}
use bare_metal_os.Mmu.Copy.{copy_pgd}
use bare_metal_os.Kernel.{PtRegs, Thread, Kernel, ready, stack_freed, thread_freed}
use bare_metal_os.Threads.{enqueue}
use bare_metal_os.Threads.Create.{share_files}
use bare_metal_os.Process.{fail}

-- The addresses that `allocate` gave for the child and its kernel stack, 0 for none, and that of
-- `ret_from_exception`.
pub record ForkPlan : Type 0 where
  pub child : ℕ
  pub stack : ℕ
  pub resume : ℕ

-- The child's directory; 0 is a copy that failed.
unfoldable pub fork_pgd : Thread → Kernel → ℕ × Tables
fork_pgd parent k =
    if (parent.pgd == 0) || (parent.pgd == k.kernel_pgd)
    then (k.kernel_pgd, k.tables)
    else copy_pgd parent.pgd k.tables

-- The parent's struct with what differs for the child; its trap frame is at `frame`.
unfoldable pub child_of : Thread → ForkPlan → ℕ → ℕ → Kernel → Thread
child_of parent plan pgd frame k = record parent {
  pid = k.nr_threads;
  status = ready;
  parent = k.current;
  sigpending = 0;
  is_handling_signal = false;
  signal_stack_page = 0;
  signal_stack_vaddr = 0;
  kernel_stack = plan.stack;
  pgd = pgd;
  vmas = copy_vma_list parent.vmas;
  context_sp = frame;
  context_ra = plan.resume;
}

-- The child's trap frame: 0 is returned, and the call is not made again.
unfoldable pub child_frame : PtRegs → ℕ → PtRegs
child_frame regs child = record regs { a0 = 0; tp = child; epc = add64 regs.epc 4 }

-- `sys_fork`
unfoldable pub sys_fork : ForkPlan → ℕ → Kernel → ℕ × Kernel
sys_fork plan regs k =
    let parent : Thread = k.threads k.current in
    let (pgd, tables) = fork_pgd parent k in
    let counted : Kernel = record k { nr_threads = inc32 k.nr_threads } in
    let frame : ℕ = add64 regs (sub64 plan.stack parent.kernel_stack) in
    let child : Thread = child_of parent plan pgd frame k in
    if plan.child == 0
    then (fail, k)
    else if plan.stack == 0
    then (fail, record counted { freed = thread_freed plan.child ∷ k.freed })
    else if pgd == 0
    then (
      fail,
      record counted {
        freed = thread_freed plan.child ∷ stack_freed plan.stack ∷ k.freed;
        tables = tables;
      },
    )
    else (
      child.pid,
      record counted {
        threads = update k.threads plan.child child;
        files = share_files child.fdt k.files;
        tables = tables;
        frames = update k.frames frame (child_frame (k.frames regs) plan.child);
        run_queue = enqueue k.run_queue plan.child;
      },
    )
