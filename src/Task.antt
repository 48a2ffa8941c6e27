-- ===== src/Task.antt =====
-- src/task.c: the queue of tasks, sorted by priority.
pub mod Order
mod Tests
use bare_metal_os.Base.{
  ℕ, zero, suc, Bool, Option, none, some, List, [], ◌∷◌, ltb, leb, if◌then◌else◌,
}

-- `struct task_node` without its link; a priority is an `int`, taken as its value plus 2^31.
pub record TaskNode (C : Type 0) : Type 0 where
  pub callback : C
  pub priority : ℕ

module _ {C : Type 0} where
  -- while (curr->next && curr->next->priority >= priority), from `curr->next` on.
  pub insert_after : TaskNode C → List (TaskNode C) → List (TaskNode C)
  insert_after new [] = new ∷ []
  insert_after new (t ∷ rest) =
      if leb new.priority t.priority then t ∷ insert_after new rest else new ∷ t ∷ rest

  -- `add_task` with the node that `allocate` gave.
  pub enqueue_task : TaskNode C → List (TaskNode C) → List (TaskNode C)
  enqueue_task new [] = new ∷ []
  enqueue_task new (t ∷ rest) =
      if ltb t.priority new.priority then new ∷ t ∷ rest else t ∷ insert_after new rest

  -- `add_task`: with `ok` false, `allocate` gave no node.
  pub add_task : Bool → C → ℕ → List (TaskNode C) → List (TaskNode C)
  add_task ok callback priority queue =
      if ok then enqueue_task (record { callback = callback; priority = priority }) queue else queue

  -- A turn of the loop of `run_tasks` at the priority that runs: the task to run and the rest.
  pub next_task : ℕ → List (TaskNode C) → Option (TaskNode C × List (TaskNode C))
  next_task running [] = none
  next_task running (t ∷ rest) = if leb t.priority running then none else some (t, rest)

-- The queue, the priority of the task that runs, and the rest of the kernel.
pub record World (C W : Type 0) : Type 0 where
  pub queue : List (TaskNode C)
  pub running : ℕ
  pub kernel : W

module _ {C W : Type 0} (call : C → World C W → World C W) where
  -- `run_tasks`, on fuel: a callback may add tasks, so that only it bounds the turns.
  pub run_tasks : ℕ → World C W → World C W
  run_tasks zero w = w
  run_tasks (suc fuel) w = elim (next_task w.running w.queue) [
    | none ↦ w
    | some (t, rest) ↦
        let w' = call t.callback (record w { queue = rest; running = t.priority }) in
        run_tasks fuel (record w' { running = w.running })
  ]
