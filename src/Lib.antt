-- ===== src/Lib.antt =====
-- Bare-Metal-OS: a kernel in C for a RISC-V board and QEMU. `main.c` starts it: the allocator is set
-- up from the device tree, then the timer, the interrupts and the file systems; after that threads,
-- system calls and interrupts drive it.
--
-- The parts that are modelled, and how they meet:
--
-- * lib/buddy.c, the buddy system (Buddy). The state is the record `Buddy`: the frame array as a map
--   from page indices, a list of page indices for each order (`free_area`), and the region. Each C
--   function is a function of it: `set_region` is buddy_set_region, `mark_reserved_range` is
--   buddy_mark_reserved_range, `init` (Buddy.Build) is buddy_init, `alloc_pages` and `free_pages` are
--   buddy_alloc_pages and buddy_free_pages. `list_add` puts a page in front of a list and `list_del`
--   takes it out. The invariant is `IsConsistent` (Buddy.InHand): every page that the array marks as
--   the head of a block heads an aligned block in the pool with its tails, and a list holds exactly
--   the free heads of its order, each once. It is stated for a state with a block in hand, so that
--   the steps of splitting (Buddy.Split), handing out (Buddy.HandOut), putting in (Buddy.Place) and
--   merging (Buddy.Merge) have lemmas of their own. Buddy.Heads has the addresses that are given back.
-- * src/allocator.c, chunks and pages for the kernel (Allocator). The record `Allocator` holds the
--   buddy system and the eight pools; a chunk is its address. `allocate` and `free` call the buddy
--   system as the code does. The invariant is `IsValid` (Allocator.Invariant): the lists hold chunks
--   of the pool pages, each once, and each pool page counts its chunks that are out. `IsOut` says
--   that a chunk is handed out.
-- * src/allocator.c at start-up, the reserved regions (Startup): `memory_reserve` and the loop of
--   startup_alloc that finds a place for the frame array. What is read from the device tree is an
--   argument.
-- * src/uart.c, the ring buffers and the transmitter (Uart). The registers are a parameter,
--   `Transmitter`, whose laws are `Sends`: a write sends one character, in order, if the transmitter
--   was found ready.
-- * src/task.c, the queue of tasks (Task): `add_task` and `run_tasks`. A callback is a function on
--   the whole state, the queue included.
-- * src/timer.c, the list of timers (Timer). An expired timer becomes a task of Task. The clock and
--   the answers of `allocate` are parameters; `schedule`, which ends the handler, is not modelled.
-- * lib/string.c, strings in memory (Strings), on a map from addresses to bytes.
-- * src/tmpfs.c, the file system in memory (Tmpfs): a vnode is a number, a name its characters.
-- * src/syscall.c, the memory areas of a process (Vma): the list that `add_vma` keeps sorted is a
--   List, `find_free_vma_region` its loop, and `sys_mmap` works on the areas and a state that the
--   mapping of a page changes, a parameter that Process.Exec fills with the page tables.
-- * src/mmu.c, the page tables (Mmu): a table is a map from indices to entries by its address, and
--   what `allocate` gives is a list in the state. `pagewalk`, `map_pages_at`, `copy_pgd` and
--   `free_pgd` (Mmu.Copy), `setup_vm` and `mmu_init` in the build for QEMU (Mmu.Boot). `IsLayered`
--   (Mmu.Levels) says that the tables have levels which the entries follow.
-- * The state that the next parts share is the record `Kernel` (Kernel): the threads by address,
--   `run_queue` as the circular list from its head, `current` for the register tp, the open files,
--   the page tables, and the trap frames on the kernel stacks.
-- * src/thread.c, threads (Threads): `schedule` up to switch_to, `thread_sleep`, `thread_exit`,
--   `kill_zombies` (Threads.Zombies), `thread_create` (Threads.Create). Addresses that `allocate`
--   gives are arguments. `IsScheduled` (Threads.Running) is the invariant of the scheduler.
-- * src/syscall.c, processes (Process): waiting, exit, stop, signals and descriptors; sys_fork
--   (Process.Fork), sys_exec (Process.Exec) and handle_syscall (Process.Calls). Process.Steps has
--   the calls as a relation of steps, and what is reached by it.
-- * src/exception.c, traps (Trap): `check_signals`, `do_trap`, and page faults (Trap.Fault).
-- * src/vfs.c, the virtual file system (Vfs): a path is its characters (Vfs.Paths), a vnode a
--   number with its mount and its parent; the operations of the vnodes are a parameter,
--   `VnodeOperations`. Vfs.Resolve says what the resolution of a path is, as a relation apart from
--   the code. Handles are closed in Kernel, and read and written in Process.
-- * lib/cpio.c, the archive of the initial RAM disk (Cpio), on a map from addresses to bytes:
--   `initrd_get_file` and `initrd_list`. `IsPacked` (Cpio.Find) says what a well-formed archive is.
-- * lib/stdio.c, the printing of numbers (Stdio): what is printed is the list of its characters.
-- * lib/align.c (Align) and the constants of src/config.h and of the files above (Config).
--
-- Base has what they share: tests on native numbers into Bool, lists with native lengths, words
-- (Base.Words) and bit operations (Base.Bits). An `unsigned long` is a number below 2^64 and an
-- `int` the number below 2^32 with the same bits; sums and differences that can wrap round are
-- written with their modulus. In Task a priority is its value plus 2^31, which keeps the order.
--
-- Loops and their fuel: the loop that merges blocks has max_order + 1 turns, one more than there are
-- orders; the loop of buddy_init has as much as the pool has pages, plus one, since each turn passes
-- a page; rounding up an order has 64 turns, one for each bit; sending has 2048, the size of the
-- buffer, and each turn takes a character out; the search for the frame array has one more than there
-- are reserved regions, since each turn goes behind one. The loops that walk a list or count down are
-- recursion on the list or the number. In `run_tasks` only the callbacks bound the turns, since they
-- may add tasks. The search for a free region has one turn more than there are areas, since each turn
-- leaves one behind; following a path has a turn for each character; mapping has one for each page
-- and one more; crossing mounts has one more than there were mounts. The walk over an archive has one
-- more than there are entries, since each turn passes one. The digits of a number have as many turns
-- as it has bits.
--
-- Not modelled: the interrupt flag (each function is one step), the flushes of caches and of the TLB,
-- logging, the contents of free memory, and what a write behind a buffer does: the buffers of
-- PATH_MAX characters in src/vfs.c are taken to be long enough. Assembly has no model: a switch of
-- threads only changes `current`. Neither have the device tree (lib/fdt.c), the format of printf
-- (lib/stdio.c), firmware calls (lib/sbi.c), the file systems of the RAM disk and of the devices
-- (src/ramfs.c, src/devfs.c), the interrupt controller (src/plic.c), the screen (src/video.c), the
-- shell (main.c), and the boot loader, which has its own copies of the libraries.
pub mod Base
pub mod Config
pub mod Align
pub mod Buddy
pub mod Allocator
pub mod Uart
pub mod Vma
pub mod Mmu
pub mod Kernel
pub mod Threads
pub mod Process
pub mod Task
pub mod Timer
pub mod Strings
pub mod Tmpfs
pub mod Startup
pub mod Trap
pub mod Vfs
pub mod Cpio
pub mod Stdio
