-- ===== src/Trap/Cow.antt =====
-- src/mmu.c and src/exception.c: a page that is shared at a fork is copied on the first store.
use bare_metal_os.Base.{ℕ, List, update}
use bare_metal_os.Mmu.{page_of, set_entry, free_page, Tables}
use bare_metal_os.Trap.Fault.{writable_copy}

-- The state after `copy_page` has taken a page that is not the one shared.
copied : ℕ → ℕ → ℕ → List ℕ → Tables → Tables
copied t i p rest s =
    let old_page : ℕ = page_of (s.entry t i) in
    free_page old_page (
      set_entry t i (writable_copy p (s.entry t i)) (record s {
        fresh = rest;
        owners = update s.owners p 1;
        bytes = update s.bytes p (s.bytes old_page);
      }))
