-- ===== src/Config.antt =====
-- The constants of src/config.h and src/mmu.h, in the build for QEMU.
use bare_metal_os.Base.{ℕ, ◌*◌, ◌/◌}

abbrev pub page_shift : ℕ
page_shift = 12

abbrev pub page_size : ℕ
page_size = 4096

abbrev pub max_order : ℕ
max_order = 10

abbrev pub max_alloc_size : ℕ
max_alloc_size = 2147483647

abbrev pub max_pool_size : ℕ
max_pool_size = 2 * 1024 * 1024 * 1024

-- BUDDY_TOTAL_PAGES
abbrev pub max_total_pages : ℕ
max_total_pages = max_pool_size / page_size

abbrev pub default_pool_start : ℕ
default_pool_start = 0x81000000

abbrev pub default_pool_size : ℕ
default_pool_size = 16 * 1024 * 1024

abbrev pub page_offset : ℕ
page_offset = 0xffffffc000000000
