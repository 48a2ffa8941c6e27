-- ===== src/Mmu/Boot.antt =====
-- src/mmu.c: the page tables of the start-up and those of the kernel.
use bare_metal_os.Base.{ℕ, ◌*◌, ◌/◌, ◌%◌, ◌^◌, bit_or, ◌==◌, if◌then◌else◌}
use bare_metal_os.Base.Words.{word_mod, add64, sub64}
use bare_metal_os.Align.{align_down_ul}
use bare_metal_os.Config.{page_size, page_offset}
use bare_metal_os.Mmu.{vpn2, set_entry, take_page, clear_page, map_pages_at, for_range, Tables}

-- PROT_KERNEL, PROT_MMIO
abbrev pub prot_kernel : ℕ
prot_kernel = 0xef

abbrev pub prot_mmio : ℕ
prot_mmio = 0xe7

-- The entry for the gigabyte at a physical address.
abbrev pub gigabyte_pte : ℕ → ℕ
gigabyte_pte pa = bit_or (pa / 2 ^ 30 * 2 ^ 28 % word_mod) prot_kernel

-- `setup_vm` on `boot_pgd`, for a kernel at `kernel_pa`: an identity mapping of its gigabyte, and
-- the first four gigabytes at PAGE_OFFSET.
unfoldable pub setup_vm : ℕ → ℕ → Tables → Tables
setup_vm boot_pgd kernel_pa s =
    let ram_base : ℕ = align_down_ul kernel_pa (2 ^ 30) in
    let identity : Tables =
      set_entry boot_pgd (vpn2 ram_base) (gigabyte_pte ram_base) (clear_page boot_pgd s) in
    for_range 4 0
      (λ i s.
        set_entry boot_pgd (vpn2 (add64 page_offset (i * 2 ^ 30))) (gigabyte_pte (i * 2 ^ 30)) s)
      identity

-- `drop_identity_map`
unfoldable pub drop_identity_map : ℕ → Tables → Tables
drop_identity_map boot_pgd s = for_range 256 0 (λ i s. set_entry boot_pgd i 0 s) s

-- The addresses that `mmu_init` reads from the linker, the allocator and the devices.
pub record Layout : Type 0 where
  pub start : ℕ
  pub text_end : ℕ
  pub rodata_end : ℕ
  pub kernel_pa : ℕ
  pub mempool_start : ℕ
  pub mempool_size : ℕ
  pub uart_base : ℕ
  pub plic_base : ℕ

-- `mmu_init` in the build for QEMU, where `allocate` gives the page of the directory.
unfoldable pub mmu_init : Layout → Tables → ℕ × Tables
mmu_init l s =
    let (pgd, s1) = take_page s in
    let text_size : ℕ = sub64 l.text_end l.start in
    let rodata_size : ℕ = sub64 l.rodata_end l.text_end in
    let pa : ℕ = sub64 l.kernel_pa page_offset in
    let ram : Tables =
      map_pages_at pgd l.mempool_start (sub64 l.mempool_start page_offset) l.mempool_size 0xe7
        (clear_page pgd s1) in
    let text : Tables = map_pages_at pgd l.start pa text_size 0x6b ram in
    let rodata : Tables = map_pages_at pgd l.text_end (add64 pa text_size) rodata_size 0x63 text in
    let uart : Tables =
      if l.uart_base == 0
      then rodata
      else map_pages_at pgd l.uart_base (sub64 l.uart_base page_offset) page_size prot_mmio
          rodata in
    let plic : Tables =
      if l.plic_base == 0
      then uart
      else map_pages_at pgd l.plic_base (sub64 l.plic_base page_offset) 0x400000 prot_mmio uart in
    let fw_cfg : Tables =
      map_pages_at pgd (add64 0x10100000 page_offset) 0x10100000 page_size prot_mmio plic in
    (pgd, map_pages_at pgd (add64 0x87000000 page_offset) 0x87000000 0x800000 prot_mmio fw_cfg)
