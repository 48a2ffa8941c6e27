-- ===== src/Timer.antt =====
-- src/timer.c: the list of timers, sorted by the time at which they expire, and the hardware timer.
pub mod Order
mod Tests
use bare_metal_os.Base.{
  ℕ, ◌+◌, ◌-◌, ◌^◌, Bool, true, false, Option, none, some, List, [], ◌∷◌, ltb, leb, if◌then◌else◌,
}
use bare_metal_os.Base.Words.{word_mod, add64}
use bare_metal_os.Task.{add_task, TaskNode}

-- `struct timer_node` without its link; `none` is a null callback.
pub record TimerNode (C : Type 0) : Type 0 where
  pub expire_time : ℕ
  pub callback : Option C

-- `timer_list`, the time for which the hardware timer is set, and the task queue.
pub record Timers (C : Type 0) : Type 0 where
  pub timer_list : List (TimerNode C)
  pub hardware : ℕ
  pub tasks : List (TaskNode C)

-- -1ULL: no timer.
abbrev pub never : ℕ
never = word_mod - 1

module _ {C : Type 0} where
  -- The new node goes before the first that expires later; with it, whether it is the first.
  pub insert_timer : TimerNode C → List (TimerNode C) → List (TimerNode C)
  insert_timer new [] = new ∷ []
  insert_timer new (t ∷ rest) =
      let later = insert_timer new rest in
      if ltb new.expire_time t.expire_time then new ∷ t ∷ rest else t ∷ later

  -- timer_list.next == &new_node->list
  pub comes_first : TimerNode C → List (TimerNode C) → Bool
  comes_first new [] = true
  comes_first new (t ∷ rest) = ltb new.expire_time t.expire_time

  -- `add_timer_ticks` at time `now`; with `ok` false, `allocate` gave no node, and false is -1.
  pub add_timer_ticks : Bool → ℕ → Option C → ℕ → Timers C → Bool × Timers C
  add_timer_ticks ok now callback ticks s =
      let new : TimerNode C = record { expire_time = add64 now ticks; callback = callback } in
      if ok
      then (
        true,
        record s {
          timer_list = insert_timer new s.timer_list;
          hardware = if comes_first new s.timer_list then new.expire_time else s.hardware;
        },
      )
      else (false, s)

  -- The callback of an expired timer becomes a task of priority 10, if there is a node for it.
  pub add_expired : Bool → Option C → List (TaskNode C) → List (TaskNode C)
  add_expired ok none tasks = tasks
  add_expired ok (some c) tasks = add_task ok c (2 ^ 31 + 10) tasks

  -- while (!list_empty(&timer_list)): `clock i` is the time and `ok i` the answer of `allocate` in
  -- turn `i`.
  pub expire :
      (ℕ → ℕ)
      → (ℕ → Bool)
      → ℕ
      → List (TimerNode C)
      → List (TaskNode C)
      → List (TimerNode C) × List (TaskNode C)
  expire clock ok i [] tasks = ([], tasks)
  expire clock ok i (t ∷ rest) tasks =
      let turn = expire clock ok (i + 1) rest (add_expired (ok i) t.callback tasks) in
      if leb t.expire_time (clock i) then turn else (t ∷ rest, tasks)

  -- What the hardware timer is set to for a list.
  pub next_time : List (TimerNode C) → ℕ
  next_time [] = never
  next_time (t ∷ rest) = t.expire_time

  -- `handle_timer_interrupt` up to its call of `schedule`.
  pub handle_timer_interrupt : (ℕ → ℕ) → (ℕ → Bool) → Timers C → Timers C
  handle_timer_interrupt clock ok s =
      let (left, tasks) = expire clock ok 0 s.timer_list s.tasks in
      record { timer_list = left; hardware = next_time left; tasks = tasks }
