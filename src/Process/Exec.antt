-- ===== src/Process/Exec.antt =====
-- src/syscall.c: `sys_exec`, and `sys_mmap` on the tables of the current process.
use bare_metal_os.Base.{
  ℕ, ◌+◌, ◌-◌, ◌*◌, ◌/◌, ◌||◌, Option, none, some, List, [], ◌∷◌, ◌==◌, if◌then◌else◌, update,
}
use bare_metal_os.Base.Words.{word_mod, sub64}
use bare_metal_os.Config.{page_size, page_offset}
use bare_metal_os.Vma.{new_area, add_vma, VmArea}
use bare_metal_os.Vma.Mmap.{sys_mmap, Space}
use bare_metal_os.Mmu.{set_entry, take_page, clear_page, map_pages_at, for_range, Tables}
use bare_metal_os.Mmu.Copy.{free_pgd}
use bare_metal_os.Kernel.{PtRegs, Thread, Kernel, areas_freed}
use bare_metal_os.Process.{fail}

-- The top of a user's stack, and USER_STACK_SIZE.
abbrev pub stack_top : ℕ
stack_top = 0x4000000000

abbrev pub user_stack_size : ℕ
user_stack_size = 0x2000

-- The directory of a new process image: the upper half is that of the kernel.
unfoldable pub fresh_pgd : ℕ → Tables → ℕ × Tables
fresh_pgd kernel_pgd s =
    let (p, s1) = take_page s in
    (p, for_range 256 256 (λ i s. set_entry p i (s.entry kernel_pgd i) s) (clear_page p s1))

-- The areas of a program of a size at an address: its code at 0, and its stack.
unfoldable pub program_areas : ℕ → ℕ → List VmArea
program_areas file size =
    let code_size : ℕ = (size + page_size - 1) / page_size * page_size in
    let code : VmArea = record (new_area 0 code_size 7 0x20) {
      file_data = file;
      file_size = size;
    } in
    add_vma (code ∷ []) (stack_top - user_stack_size) user_stack_size 3 0x20

-- `sys_exec` with the data and the size of the file that `initrd_get_file` found, or none.
unfoldable pub sys_exec : Option (ℕ × ℕ) → ℕ → Kernel → ℕ × Kernel
sys_exec none regs k = (fail, k)
sys_exec (some (file, size)) regs k =
    let c : Thread = k.threads k.current in
    let (pgd, fresh) = fresh_pgd k.kernel_pgd k.tables in
    let tables : Tables =
      if (c.pgd == 0) || (c.pgd == k.kernel_pgd) then fresh else free_pgd c.pgd fresh in
    let started : Thread = record c { vmas = program_areas file size; pgd = pgd } in
    let entry_frame : PtRegs = record (k.frames regs) { epc = word_mod - 4; sp = stack_top } in
    (
      0,
      record k {
        threads = update k.threads k.current started;
        address_space = pgd;
        tables = tables;
        frames = update k.frames regs entry_frame;
        freed = areas_freed c.vmas ∷ k.freed;
      },
    )

-- The body of the loop of MAP_POPULATE on a directory.
unfoldable pub populate_page : ℕ → ℕ → ℕ → Tables → Option Tables
populate_page pgd a prot s =
    let (p, s1) = take_page s in
    if p == 0
    then none
    else some (map_pages_at pgd a (sub64 p page_offset) page_size prot (clear_page p s1))

-- `sys_mmap` of the current process; the outer `none` does not happen.
unfoldable pub mmap_current : ℕ → ℕ → ℕ → ℕ → Kernel → Option (ℕ × Kernel)
mmap_current addr size prot flags k =
    let c : Thread = k.threads k.current in
    let space : Space Tables = record { vmas = c.vmas; kernel = k.tables } in
    elim (sys_mmap (populate_page c.pgd) addr size prot flags space) [
      | none ↦ none
      | some (result, s) ↦ some (
        elim result [ none ↦ fail | some a ↦ a ],
        record k {
          threads = update k.threads k.current (record c { vmas = s.vmas });
          tables = s.kernel;
        },
      )
    ]
