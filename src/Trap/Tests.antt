-- ===== src/Trap/Tests.antt =====
-- A page shared by two tables, and a signal for the idle thread of four.
use bare_metal_os.Base.{ℕ, ◌+◌, ◌≡◌, refl, some, ◌==◌, if◌then◌else◌}
use bare_metal_os.Mmu.{set_entry, take_page, free_page, Tables}
use bare_metal_os.Mmu.Copy.{share_page}
use bare_metal_os.Mmu.Tests.{page_a, tables}
use bare_metal_os.Threads.{
  enqueue, behind, up_to, first_runnable, pick_next, hand_over, schedule, wake_parent, thread_exit,
}
use bare_metal_os.Threads.Create.{fresh_thread}
use bare_metal_os.Threads.Tests.{four}
use bare_metal_os.Trap.{first_pending}
use bare_metal_os.Trap.Fault.{area_of, copy_page, resolve_cow, handle_fault, page_fault}

-- Entry 3 of the parent's table maps a page of two bytes, with one owner.
abbrev parent_table : ℕ
parent_table = 0xffffffc081003000

abbrev child_table : ℕ
child_table = 0xffffffc081004000

abbrev shared : ℕ
shared = 0xffffffc081005000

abbrev mapped : Tables
mapped = record (set_entry parent_table 3 0x204014d7 tables) {
  owners = λ x. if x == shared then 1 else 0;
  bytes = λ x i. if x == shared then 65 + i else 0;
}

child_copy :
    (resolve_cow child_table 3 (share_page parent_table child_table 3 mapped)).bytes page_a 1 ≡ 66
unfolding resolve_cow copy_page take_page free_page share_page
child_copy = refl

lowest_signal : first_pending 32 0 0x210 ≡ some 4
unfolding first_pending
lowest_signal = refl

no_area : (page_fault (λ _. 0) 13 0x5000 four).current ≡ 200
unfolding page_fault handle_fault area_of thread_exit schedule hand_over pick_next first_runnable
    behind up_to wake_parent enqueue fresh_thread
no_area = refl
