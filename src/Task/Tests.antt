-- ===== src/Task/Tests.antt =====
-- A queue of three tasks.
use bare_metal_os.Base.{ℕ, ◌≡◌, refl, true, List, [], ◌∷◌, ◌++◌, arith}
use bare_metal_os.Task.{insert_after, enqueue_task, add_task, next_task, run_tasks, TaskNode, World}
use bare_metal_os.Task.Order.{
  IsSorted, of_priority, add_task-IsSorted, urgent, not_urgent, run_each, quiet_call,
  run_tasks-urgent,
}

abbrev task : ℕ → ℕ → TaskNode ℕ
task c k = record { callback = c; priority = k }

abbrev three : List (TaskNode ℕ)
three = task 1 30 ∷ task 2 20 ∷ task 3 10 ∷ []

behind_equals : add_task true 4 20 three ≡ task 1 30 ∷ task 2 20 ∷ task 4 20 ∷ task 3 10 ∷ []
unfolding add_task enqueue_task insert_after
behind_equals = refl

-- The kernel keeps a log of the callbacks.
abbrev logged : ℕ → ℕ → List ℕ → List ℕ
logged c k log = c ∷ log

abbrev idle : World ℕ (List ℕ)
idle = record { queue = three; running = 15; kernel = [] }

runs_two :
    run_tasks (quiet_call logged) 3 idle
    ≡ record idle { queue = task 3 10 ∷ []; kernel = 2 ∷ 1 ∷ [] }
unfolding run_tasks next_task
runs_two = refl

add_task-IsSorted_example :
    IsSorted 99 (add_task true 4 20 three)
    × ((p : ℕ)
        → of_priority p (add_task true 4 20 three)
          ≡ of_priority p three ++ of_priority p (task 4 20 ∷ []))
add_task-IsSorted_example =
    add_task-IsSorted true 4 20 three 99 (omega arith, (omega arith, (omega arith, tt)))
      (omega arith)

run_tasks-urgent_example :
    run_tasks (quiet_call logged) 3 idle
    ≡ record idle { queue = not_urgent 15 three; kernel = run_each logged (urgent 15 three) [] }
run_tasks-urgent_example =
    run_tasks-urgent logged 3 99 idle (omega arith, (omega arith, (omega arith, tt))) (omega arith)
