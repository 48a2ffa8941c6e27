-- ===== src/Kernel.antt =====
-- The state that src/thread.c, src/vfs.c and src/syscall.c share: threads, run queue, open files.
use bare_metal_os.Base.{
  ℕ, ◌^◌, Bool, true, false, ◌&&◌, Option, none, some, List, [], ◌∷◌, ltb, ◌==◌, if◌then◌else◌,
  update,
}
use bare_metal_os.Base.Words.{dec32}
use bare_metal_os.Vma.{VmArea}
use bare_metal_os.Mmu.{Tables}

-- `enum THREAD_STATUS`
pub data Status : Type 0 where
  running ready waiting terminated aborted : Status

abbrev pub is_runnable : Status → Bool
is_runnable ready = true
is_runnable running = true
is_runnable _ = false

-- THREAD_TERMINATED or THREAD_ABORTED
abbrev pub is_zombie : Status → Bool
is_zombie terminated = true
is_zombie aborted = true
is_zombie _ = false

abbrev pub is_running : Status → Bool
is_running running = true
is_running _ = false

abbrev pub is_waiting : Status → Bool
is_waiting waiting = true
is_waiting _ = false

-- The fields of `struct pt_regs` that the modelled code reads or writes.
pub record PtRegs : Type 0 where
  pub ra : ℕ
  pub sp : ℕ
  pub tp : ℕ
  pub a0 : ℕ
  pub a1 : ℕ
  pub a2 : ℕ
  pub a3 : ℕ
  pub a4 : ℕ
  pub a7 : ℕ
  pub epc : ℕ
  pub cause : ℕ
  pub badaddr : ℕ

-- `struct thread` less its link; a pointer is an address, 0 is NULL. `pid` and `waiting_pid` are
-- patterns of an `int`; of the context only `ra` and `sp` are written by the code.
pub record Thread : Type 0 where
  pub context_ra : ℕ
  pub context_sp : ℕ
  pub pid : ℕ
  pub status : Status
  pub kernel_stack : ℕ
  pub user_stack : ℕ
  pub parent : ℕ
  pub waiting_pid : ℕ
  pub entry_func : ℕ
  pub pgd : ℕ
  pub vmas : List VmArea
  pub signal_handler : ℕ → ℕ
  pub sigpending : ℕ
  pub is_handling_signal : Bool
  pub signal_saved_regs : PtRegs
  pub signal_stack_page : ℕ
  pub signal_stack_vaddr : ℕ
  pub cwd : ℕ
  pub root : ℕ
  pub fdt : List ℕ

-- `struct file`; `f_ops` is that of the vnode, `ref_count` the pattern of an `int`.
pub record File : Type 0 where
  pub vnode : ℕ
  pub f_pos : ℕ
  pub flags : ℕ
  pub ref_count : ℕ

-- What is given to `free`.
pub data Freed : Type 0 where
  file_freed stack_freed thread_freed : ℕ → Freed
  areas_freed : List VmArea → Freed

-- `run_queue` lists the circular list from its head, in the order of the links; [] is NULL.
-- `current` is the register tp, `address_space` the page directory in satp, `freed` what was freed,
-- the latest first, and `frames` the trap frames on the kernel stacks by their addresses.
pub record Kernel : Type 0 where
  pub threads : ℕ → Thread
  pub run_queue : List ℕ
  pub nr_threads : ℕ
  pub current : ℕ
  pub kernel_pgd : ℕ
  pub address_space : ℕ
  pub files : ℕ → File
  pub freed : List Freed
  pub tables : Tables
  pub frames : ℕ → PtRegs

abbrev pub status_of : Kernel → ℕ → Status
status_of k t = (k.threads t).status

-- t->status = status
abbrev pub set_status : ℕ → Status → Kernel → Kernel
set_status t status k = record k {
  threads = update k.threads t (record (k.threads t) { status = status });
}

-- The first thread of a list with a PID.
unfoldable pub find_pid : (ℕ → Thread) → ℕ → List ℕ → Option ℕ
find_pid threads pid [] = none
find_pid threads pid (t ∷ ts) =
    let rest = find_pid threads pid ts in if (threads t).pid == pid then some t else rest

-- `vfs_close`; the `close` of each file system does nothing and returns 0.
unfoldable pub vfs_close : ℕ → Kernel → Kernel
vfs_close f k =
    let count : ℕ = dec32 (k.files f).ref_count in
    let dropped : Kernel = record k {
      files = update k.files f (record (k.files f) { ref_count = count });
    } in
    if ltb 0 count && ltb count (2 ^ 31)
    then dropped
    else record dropped { freed = file_freed f ∷ k.freed }
