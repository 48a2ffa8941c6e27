-- ===== src/Trap.antt =====
-- src/exception.c: page faults, the delivery of signals, and the dispatch of a trap.
pub mod Fault
pub mod Cow
mod Tests
use bare_metal_os.Base.{
  ℕ, zero, suc, ◌-◌, ◌^◌, bit_and, true, ◌||◌, Option, none, some, ltb, leb, ◌==◌, if◌then◌else◌,
  update,
}
use bare_metal_os.Base.Words.{int_mod, add64, sub64}
use bare_metal_os.Base.Bits.{pow2}
use bare_metal_os.Config.{page_offset}
use bare_metal_os.Vma.{add_vma, find_free_vma_region}
use bare_metal_os.Mmu.{take_page, clear_page, map_pages_at, Tables}
use bare_metal_os.Kernel.{PtRegs, Thread, Kernel}
use bare_metal_os.Threads.{thread_exit}
use bare_metal_os.Trap.Fault.{page_fault}

-- The lowest pending signal from `i` on.
unfoldable pub first_pending : ℕ → ℕ → ℕ → Option ℕ
first_pending zero i pending = none
first_pending (suc n) i pending =
    let rest = first_pending n (suc i) pending in
    if bit_and pending (pow2 i) == 0 then rest else some i

-- `sigreturn_stub`, its bytes and its size.
pub record Stub : Type 0 where
  pub code : ℕ → ℕ
  pub size : ℕ

-- memcpy of the stub to the end of a page.
abbrev pub put_stub : Stub → ℕ → Tables → Tables
put_stub stub p s =
    let base : ℕ = 4096 - stub.size in
    record s {
      bytes = update s.bytes p (λ i. if leb base i then stub.code (i - base) else s.bytes p i);
    }

-- The delivery of signal `i` of the current thread: its stack at a free address, and the registers
-- of its handler.
unfoldable pub deliver : Stub → ℕ → ℕ → ℕ → Kernel → Kernel
deliver stub i vaddr regs k =
    let c : Thread = k.threads k.current in
    let (page, s1) = take_page k.tables in
    let mapped : Tables =
      map_pages_at c.pgd vaddr (sub64 page page_offset) 4096 0xdf (clear_page page s1) in
    let trampoline : ℕ = sub64 (add64 vaddr 4096) stub.size in
    let handling : Thread = record c {
      sigpending = bit_and c.sigpending (int_mod - 1 - pow2 i);
      is_handling_signal = true;
      signal_saved_regs = k.frames regs;
      signal_stack_page = page;
      signal_stack_vaddr = vaddr;
      vmas = add_vma c.vmas vaddr 4096 7 0x20;
    } in
    let handler_frame : PtRegs = record (k.frames regs) {
      ra = trampoline;
      sp = trampoline;
      epc = c.signal_handler i;
    } in
    record k {
      threads = update k.threads k.current handling;
      tables = put_stub stub page mapped;
      frames = update k.frames regs handler_frame;
    }

-- `check_signals`
unfoldable pub check_signals : Stub → ℕ → Kernel → Kernel
check_signals stub regs k =
    let c : Thread = k.threads k.current in
    if (k.current == 0) || (c.sigpending == 0) || c.is_handling_signal
    then k
    else (elim (first_pending 32 0 c.sigpending) [
      | none ↦ k
      | some i ↦ elim (find_free_vma_region c.vmas 4096) [
        | none ↦ k
        | some vaddr ↦ deliver stub i vaddr regs k
      ]
    ])

-- The parts of the kernel that a trap calls: the timer, the serial line, the interrupt controller
-- with its answer to a claim, the system calls and the deferred tasks.
pub record Handlers : Type 0 where
  pub timer : Kernel → Kernel
  pub uart : Kernel → Kernel
  pub plic_claim : ℕ
  pub plic_complete : ℕ → Kernel → Kernel
  pub uart_irq : ℕ
  pub syscall : ℕ → Kernel → Kernel
  pub run_tasks : Kernel → Kernel

module _ (h : Handlers) (stub : Stub) (memory : ℕ → ℕ) where
  -- Cause 9: an interrupt number that is positive is completed; 0 stops the kernel.
  unfoldable pub external_interrupt : Kernel → Option Kernel
  external_interrupt k =
      let handled : Kernel = if h.plic_claim == h.uart_irq then h.uart k else k in
      if h.plic_claim == 0
      then none
      else if ltb h.plic_claim (2 ^ 31)
      then some (h.plic_complete h.plic_claim handled)
      else some k

  -- An interrupt, by its cause without the highest bit.
  unfoldable pub interrupt : ℕ → Kernel → Option Kernel
  interrupt cause k =
      if cause == 5 then some (h.timer k) else if cause == 9 then external_interrupt k else some k

  -- What follows an interrupt.
  abbrev pub after_trap : ℕ → Kernel → Kernel
  after_trap regs k = check_signals stub regs (h.run_tasks k)

  -- An exception by its cause. After an unknown one the thread has ended and is not run again, so that
  -- nothing follows here.
  unfoldable pub exception : ℕ → Kernel → Kernel
  exception regs k =
      let r : PtRegs = k.frames regs in
      if r.cause == 8
      then check_signals stub regs (h.syscall regs k)
      else if (r.cause == 12) || (r.cause == 13) || (r.cause == 15)
      then page_fault memory r.cause r.badaddr k
      else thread_exit k

  -- `do_trap`; `none` is the endless loop of an interrupt 0.
  unfoldable pub do_trap : ℕ → Kernel → Option Kernel
  do_trap regs k =
      let r : PtRegs = k.frames regs in
      if leb (2 ^ 63) r.cause
      then (elim (interrupt (r.cause - 2 ^ 63) k) [
        | none ↦ none
        | some k' ↦ some (after_trap regs k')
      ])
      else some (exception regs k)
