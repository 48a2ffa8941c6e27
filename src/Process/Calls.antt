-- ===== src/Process/Calls.antt =====
-- src/syscall.c: `handle_syscall`, the dispatch of a system call by its number.
use bare_metal_os.Base.{
  ℕ, ◌%◌, Bool, Option, none, some, List, [], ◌∷◌, ◌==◌, if◌then◌else◌, get_or, update,
}
use bare_metal_os.Base.Words.{int_mod, add64, extend}
use bare_metal_os.Kernel.{PtRegs, Kernel}
use bare_metal_os.Threads.{thread_sleep}
use bare_metal_os.Process.{
  fail, sys_getpid, sys_waitpid, sys_exit, sys_stop, sys_signal, sys_kill, sys_sigreturn, sys_open,
  sys_close, sys_read, sys_write, sys_lseek64, sys_ioctl, FileOperations,
}
use bare_metal_os.Process.Fork.{sys_fork, ForkPlan}
use bare_metal_os.Process.Exec.{sys_exec, mmap_current}

-- What the calls need from other parts: the addresses of a fork, whether the timer of a sleep was
-- armed, the program and the file that a path leads to, and the calls that are not modelled here,
-- as functions of their arguments.
pub record Machine : Type 0 where
  pub plan : ForkPlan
  pub armed : Bool
  pub program : ℕ → Kernel → Option (ℕ × ℕ)
  pub vfs_open : ℕ → ℕ → Kernel → Option ℕ × Kernel
  pub uart_read : ℕ → ℕ → Kernel → ℕ × Kernel
  pub uart_write : ℕ → ℕ → Kernel → ℕ × Kernel
  pub display : ℕ → ℕ → ℕ → Kernel → Kernel
  pub mkdir : ℕ → ℕ → Kernel → ℕ × Kernel
  pub mount : ℕ → ℕ → ℕ → Kernel → ℕ × Kernel
  pub vfs_lookup : ℕ → Kernel → Option ℕ
  pub f_ops : ℕ → FileOperations

-- `sys_chdir` with the vnode that the path leads to.
unfoldable pub sys_chdir : Option ℕ → Kernel → ℕ × Kernel
sys_chdir none k = (fail, k)
sys_chdir (some node) k = (
  0,
  record k { threads = update k.threads k.current (record (k.threads k.current) { cwd = node }) },
)

-- The results of `sys_exit`, whose caller keeps ret = -1, and of a call that gives no result.
abbrev pub with_result : ℕ → Kernel → ℕ × Kernel
with_result r k = (r, k)

-- The calls in the order of their numbers.
pub data Call : Type 0 where
  getpid_call uart_read_call uart_write_call exec_call fork_call waitpid_call exit_call : Call
  stop_call display_call usleep_call signal_call sigreturn_call kill_call mmap_call : Call
  open_call close_call read_call write_call mkdir_call mount_call chdir_call : Call
  lseek64_call ioctl_call unknown_call : Call

abbrev pub calls : List Call
calls =
    getpid_call ∷ uart_read_call ∷ uart_write_call ∷ exec_call ∷ fork_call ∷ waitpid_call
    ∷ exit_call ∷ stop_call ∷ display_call ∷ usleep_call ∷ signal_call ∷ sigreturn_call ∷ kill_call
    ∷ mmap_call ∷ open_call ∷ close_call ∷ read_call ∷ write_call ∷ mkdir_call ∷ mount_call
    ∷ chdir_call ∷ lseek64_call ∷ ioctl_call ∷ []

abbrev pub call_of : ℕ → Call
call_of n = get_or calls n unknown_call

-- The switch of `handle_syscall` on the arguments in a trap frame.
module _ (m : Machine) where
  unfoldable pub dispatch : Call → PtRegs → ℕ → Kernel → ℕ × Kernel
  dispatch getpid_call r regs k = (sys_getpid k, k)
  dispatch uart_read_call r regs k = m.uart_read r.a0 r.a1 k
  dispatch uart_write_call r regs k = m.uart_write r.a0 r.a1 k
  dispatch exec_call r regs k = sys_exec (m.program r.a0 k) regs k
  dispatch fork_call r regs k = sys_fork m.plan regs k
  dispatch waitpid_call r regs k = sys_waitpid r.a0 k
  dispatch exit_call r regs k = with_result fail (sys_exit k)
  dispatch stop_call r regs k = sys_stop r.a0 k
  dispatch display_call r regs k = with_result 0 (m.display r.a0 r.a1 r.a2 k)
  dispatch usleep_call r regs k = let (ret, k') = thread_sleep m.armed k in (extend ret, k')
  dispatch signal_call r regs k = sys_signal (r.a0 % int_mod) r.a1 k
  dispatch kill_call r regs k = sys_kill (extend (r.a0 % int_mod)) (r.a1 % int_mod) k
  dispatch mmap_call r regs k =
      elim (mmap_current r.a0 r.a1 (extend (r.a2 % int_mod)) (extend (r.a3 % int_mod)) k) [
        | none ↦ (fail, k)
        | some result ↦ result
      ]
  dispatch open_call r regs k =
      let (f, opened) = m.vfs_open r.a0 (r.a1 % int_mod) k in sys_open f opened
  dispatch close_call r regs k = sys_close (r.a0 % int_mod) k
  dispatch read_call r regs k = sys_read m.f_ops (r.a0 % int_mod) r.a1 r.a2 k
  dispatch write_call r regs k = sys_write m.f_ops (r.a0 % int_mod) r.a1 r.a2 k
  dispatch mkdir_call r regs k = m.mkdir r.a0 r.a1 k
  dispatch mount_call r regs k = m.mount r.a1 r.a2 r.a3 k
  dispatch chdir_call r regs k = sys_chdir (m.vfs_lookup r.a0 k) k
  dispatch lseek64_call r regs k = sys_lseek64 m.f_ops (r.a0 % int_mod) r.a1 (r.a2 % int_mod) k
  dispatch ioctl_call r regs k = sys_ioctl m.f_ops (r.a0 % int_mod) r.a1 r.a2 k
  dispatch sigreturn_call r regs k = (fail, sys_sigreturn regs k)
  dispatch unknown_call r regs k = (fail, k)

  -- regs->a0 = ret; regs->epc += 4
  abbrev pub finish : ℕ → ℕ → Kernel → Kernel
  finish regs ret k =
      let r : PtRegs = record (k.frames regs) { a0 = ret; epc = add64 (k.frames regs).epc 4 } in
      record k { frames = update k.frames regs r }

  -- `handle_syscall`
  unfoldable pub handle_syscall : ℕ → Kernel → Kernel
  handle_syscall regs k =
      let r : PtRegs = k.frames regs in
      let (ret, k') = dispatch (call_of r.a7) r regs k in
      if r.a7 == 11 then k' else finish regs ret k'
