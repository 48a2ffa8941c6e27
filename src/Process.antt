-- ===== src/Process.antt =====
-- src/syscall.c: waiting for, ending and signalling processes, and their file tables.
pub mod Fork
pub mod Exec
pub mod Calls
pub mod Lookup
pub mod Scheduled
pub mod Steps
pub mod Errors
pub mod Files
mod Tests
use mathlib.Core.Option
use bare_metal_os.Base.{
  ℕ, suc, ◌-◌, ◌%◌, ◌^◌, bit_or, Bool, false, ◌||◌, Option, none, some, List, [], ◌∷◌, leb, ◌==◌,
  if◌then◌else◌, get_or, set, replicate, update, count,
}
use bare_metal_os.Base.Words.{word_mod, int_mod}
use bare_metal_os.Base.Bits.{pow2}
use bare_metal_os.Kernel.{
  is_zombie, status_of, set_status, find_pid, vfs_close, Thread, Kernel, waiting, aborted,
}
use bare_metal_os.Vma.{remove_vma}
use bare_metal_os.Mmu.{set_entry, free_page, pagewalk, Tables}
use bare_metal_os.Threads.{schedule, wake_parent, thread_exit, close_files}

-- The result -1, as it is returned in a register.
abbrev pub fail : ℕ
fail = word_mod - 1

-- pid <= 0 for a `long`, and signum < 0 || signum >= 32 for an `int`.
abbrev pub not_positive : ℕ → Bool
not_positive pid = (pid == 0) || leb (2 ^ 63) pid

abbrev pub no_signal : ℕ → Bool
no_signal signum = leb 32 signum

-- `sys_getpid`
unfoldable pub sys_getpid : Kernel → ℕ
sys_getpid k = (k.threads k.current).pid

-- `sys_waitpid`: PIDs are not negative, so that one is found by its value.
unfoldable pub sys_waitpid : ℕ → Kernel → ℕ × Kernel
sys_waitpid pid k = elim (find_pid k.threads pid k.run_queue) [
  | none ↦ (fail, k)
  | some target ↦
      let c : Thread = k.threads k.current in
      let blocked : Kernel = record k {
        threads =
            update k.threads k.current (record c { status = waiting; waiting_pid = pid % int_mod });
      } in
      if is_zombie (status_of k target) then (pid, k) else (pid, schedule blocked)
]

-- The table of the current process, with one entry set.
abbrev pub set_fd : ℕ → ℕ → Kernel → Kernel
set_fd fd f k =
    let c : Thread = k.threads k.current in
    record k { threads = update k.threads k.current (record c { fdt = set c.fdt fd f }) }

-- `sys_exit`
unfoldable pub sys_exit : Kernel → Kernel
sys_exit k =
    let closed : Kernel = close_files (k.threads k.current).fdt k in
    let c : Thread = k.threads k.current in
    thread_exit
      (record closed { threads = update k.threads k.current (record c { fdt = replicate 16 0 }) })

-- A target is aborted, its parent woken up, and another thread runs if it was the current one.
unfoldable pub abort_thread : ℕ → Kernel → Kernel
abort_thread target k =
    let ended : Kernel = wake_parent target (set_status target aborted k) in
    if target == k.current then schedule ended else ended

-- The thread of a PID that has not ended.
unfoldable pub live_thread : ℕ → Kernel → Option ℕ
live_thread pid k = elim (find_pid k.threads pid k.run_queue) [
  | none ↦ none
  | some t ↦ if is_zombie (status_of k t) then none else some t
]

-- `sys_stop`
unfoldable pub sys_stop : ℕ → Kernel → ℕ × Kernel
sys_stop pid k = elim (live_thread pid k) [
  | none ↦ (fail, k)
  | some target ↦ if not_positive pid then (fail, k) else (0, abort_thread target k)
]

-- `sys_signal`
unfoldable pub sys_signal : ℕ → ℕ → Kernel → ℕ × Kernel
sys_signal signum handler k =
    let c : Thread = k.threads k.current in
    let handlers : ℕ → ℕ = update c.signal_handler signum handler in
    if no_signal signum then (fail, k) else (
      0,
      record k { threads = update k.threads k.current (record c { signal_handler = handlers }) },
    )

-- target->sigpending |= (1 << signum)
abbrev pub pend : ℕ → ℕ → Kernel → Kernel
pend target signum k =
    let t : Thread = k.threads target in
    record k {
      threads =
          update k.threads target (record t { sigpending = bit_or t.sigpending (pow2 signum) });
    }

-- `sys_kill`; the PID is an `int` here, so that a negative one is extended.
unfoldable pub sys_kill : ℕ → ℕ → Kernel → ℕ × Kernel
sys_kill pid signum k = elim (live_thread pid k) [
  | none ↦ (fail, k)
  | some target ↦
      if no_signal signum || not_positive pid
      then (fail, k)
      else if (k.threads target).signal_handler signum == 0
      then (0, abort_thread target k)
      else (0, pend target signum k)
]

-- `sys_sigreturn`: the page, the mapping and the area of the signal stack go, and the registers
-- saved in front of the handler come back.
unfoldable pub sys_sigreturn : ℕ → Kernel → Kernel
sys_sigreturn regs k =
    let c : Thread = k.threads k.current in
    let freed : Tables = free_page c.signal_stack_page k.tables in
    let (pte, walked) = pagewalk c.pgd c.signal_stack_vaddr false freed in
    let unmapped : Tables = elim pte [ none ↦ walked | some (t, i) ↦ set_entry t i 0 walked ] in
    let bare : Thread = record c {
      signal_stack_page = 0;
      vmas = remove_vma c.vmas c.signal_stack_vaddr;
      signal_stack_vaddr = 0;
      is_handling_signal = false;
    } in
    let restored : Kernel = record k { frames = update k.frames regs c.signal_saved_regs } in
    if c.signal_stack_page == 0
    then record restored {
      threads = update k.threads k.current (record c { is_handling_signal = false });
    }
    else record restored { threads = update k.threads k.current bare; tables = unmapped }

-- The open file of a descriptor, if it is one.
unfoldable pub file_of : ℕ → Kernel → Option ℕ
file_of fd k =
    let f : ℕ = get_or (k.threads k.current).fdt fd 0 in
    if leb 16 fd then none else if f == 0 then none else some f

-- The first entry of a table that is free.
unfoldable pub free_fd : List ℕ → Option ℕ
free_fd [] = none
free_fd (f ∷ fdt) = let rest = Option.map suc (free_fd fdt) in if f == 0 then some 0 else rest

-- `sys_open` with the file that `vfs_open` gave, or none.
unfoldable pub sys_open : Option ℕ → Kernel → ℕ × Kernel
sys_open none k = (fail, k)
sys_open (some f) k = elim (free_fd (k.threads k.current).fdt) [
  | none ↦ (fail, vfs_close f k)
  | some fd ↦ (fd, set_fd fd f k)
]

-- `sys_close`
unfoldable pub sys_close : ℕ → Kernel → ℕ × Kernel
sys_close fd k = elim (file_of fd k) [
  | none ↦ (fail, k)
  | some f ↦ (0, set_fd fd 0 (vfs_close f k))
]

-- `struct file_operations`: each call gets the file's address, and gives its result; a pointer that
-- is NULL is `none`.
pub record FileOperations : Type 0 where
  pub read : ℕ → ℕ → ℕ → Kernel → ℕ × Kernel
  pub write : ℕ → ℕ → ℕ → Kernel → ℕ × Kernel
  pub lseek64 : Option (ℕ → ℕ → ℕ → Kernel → ℕ × Kernel)
  pub ioctl : Option (ℕ → ℕ → ℕ → Kernel → ℕ × Kernel)

-- The operations of a file's vnode.
module _ (f_ops : ℕ → FileOperations) where
  abbrev pub ops_of : ℕ → Kernel → FileOperations
  ops_of f k = f_ops (k.files f).vnode

  -- `sys_read` and `vfs_read`
  unfoldable pub sys_read : ℕ → ℕ → ℕ → Kernel → ℕ × Kernel
  sys_read fd buf count k = elim (file_of fd k) [
    | none ↦ (fail, k)
    | some f ↦ (ops_of f k).read f buf count k
  ]

  -- `sys_write` and `vfs_write`
  unfoldable pub sys_write : ℕ → ℕ → ℕ → Kernel → ℕ × Kernel
  sys_write fd buf count k = elim (file_of fd k) [
    | none ↦ (fail, k)
    | some f ↦ (ops_of f k).write f buf count k
  ]

  -- `vfs_lseek64`, `vfs_ioctl`: a file without the operation gives -1.
  abbrev pub or_fail : Option (ℕ → ℕ → ℕ → Kernel → ℕ × Kernel) → ℕ → ℕ → ℕ → Kernel → ℕ × Kernel
  or_fail none f a b k = (fail, k)
  or_fail (some op) f a b k = op f a b k

  -- `sys_lseek64` and `sys_ioctl`
  unfoldable pub sys_lseek64 : ℕ → ℕ → ℕ → Kernel → ℕ × Kernel
  sys_lseek64 fd offset whence k = elim (file_of fd k) [
    | none ↦ (fail, k)
    | some f ↦ or_fail (ops_of f k).lseek64 f offset whence k
  ]

  unfoldable pub sys_ioctl : ℕ → ℕ → ℕ → Kernel → ℕ × Kernel
  sys_ioctl fd request arg k = elim (file_of fd k) [
    | none ↦ (fail, k)
    | some f ↦ or_fail (ops_of f k).ioctl f request arg k
  ]
