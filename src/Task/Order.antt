-- ===== src/Task/Order.antt =====
-- The order of the queue: sorted by priority, and first come first served within a priority.
use native.Mathlib.Decide.{ℕ_discrete}
use mathlib.Core.List.{append-nil}
use bare_metal_os.Base.{
  ℕ, zero, suc, ◌≤◌, ◌<◌, ◌≡◌, refl, sym, ap, inl, inr, Bool, true, false, List, [], ◌∷◌, ◌++◌,
  arith, ltb, leb, ◌==◌, if◌then◌else◌, Bool-cases, length,
}
use bare_metal_os.Task.{insert_after, enqueue_task, add_task, next_task, run_tasks, TaskNode, World}

module _ {C : Type 0} where
  -- No task behind the first has a higher priority than `k`, and so on behind it.
  abbrev pub IsSorted : ℕ → List (TaskNode C) → Type 0
  IsSorted k [] = Unit
  IsSorted k (t ∷ rest) = (t.priority ≤ k) × IsSorted t.priority rest

  -- The tasks of one priority, in the order of the queue.
  pub of_priority : ℕ → List (TaskNode C) → List (TaskNode C)
  of_priority p [] = []
  of_priority p (t ∷ rest) =
      let others = of_priority p rest in if t.priority == p then t ∷ others else others

  insert_after-IsSorted :
      (new : TaskNode C) (q : List (TaskNode C)) (k : ℕ)
      → new.priority ≤ k
      → IsSorted k q
      → IsSorted k (insert_after new q)
  unfolding insert_after
  insert_after-IsSorted new [] k small s = (small, tt)
  insert_after-IsSorted new (t ∷ rest) k small (le, s) =
      elim (Bool-cases (leb new.priority t.priority)) [
        | inl behind ↦ rw behind (le, insert_after-IsSorted new rest t.priority (ground arith) s)
        | inr front ↦ rw front (small, (ground arith, s))
      ]

  of_priority-none : (q : List (TaskNode C)) (k p : ℕ) → IsSorted k q → k < p → of_priority p q ≡ []
  unfolding of_priority
  of_priority-none [] k p s l = refl
  of_priority-none (t ∷ rest) k p (le, s) l =
      let ne : (t.priority == p) ≡ false = ground arith in
      rw ne (of_priority-none rest t.priority p s (omega arith))

  -- A new task in front of tasks of lower priority.
  of_priority-front :
      (new : TaskNode C) (q : List (TaskNode C)) (p k : ℕ)
      → IsSorted k q
      → k < new.priority
      → of_priority p (new ∷ q) ≡ of_priority p q ++ of_priority p (new ∷ [])
  unfolding of_priority
  of_priority-front new q p k s l = elim (ℕ_discrete new.priority p) [
    | yes e ↦
        let t : (new.priority == p) ≡ true = ground arith in
        rw (t, of_priority-none q k p s (omega arith)) refl
    | no ne ↦
        let t : (new.priority == p) ≡ false = ground arith in
        rw t (sym (append-nil (of_priority p q)))
  ]

  of_priority-insert_after :
      (new : TaskNode C) (q : List (TaskNode C)) (p k : ℕ)
      → IsSorted k q
      → of_priority p (insert_after new q) ≡ of_priority p q ++ of_priority p (new ∷ [])
  unfolding insert_after of_priority
  of_priority-insert_after new [] p k s = refl
  of_priority-insert_after new (t ∷ rest) p k (le, s) =
      elim (Bool-cases (leb new.priority t.priority)) [
        | inr front ↦ rw front (
            unfold of_priority in
            of_priority-front new (t ∷ rest) p t.priority (omega arith, s) (ground arith))
        | inl behind ↦
            let rest' = of_priority-insert_after new rest p t.priority s in
            elim (Bool-cases (t.priority == p)) [
              | inl e ↦ rw (behind, e, rest') refl
              | inr e ↦ rw (behind, e, rest') refl
            ]
      ]

  enqueue_task-insert_after :
      (new : TaskNode C) (q : List (TaskNode C)) → enqueue_task new q ≡ insert_after new q
  unfolding enqueue_task insert_after
  enqueue_task-insert_after new [] = refl
  enqueue_task-insert_after new (t ∷ rest) = elim (Bool-cases (ltb t.priority new.priority)) [
    | inl front ↦ let e : leb new.priority t.priority ≡ false = ground arith in rw (front, e) refl
    | inr behind ↦ let e : leb new.priority t.priority ≡ true = ground arith in rw (behind, e) refl
  ]

  -- `add_task` keeps the queue sorted by priority, the highest first; the new task stands behind the
  -- tasks of its priority, and the order among the others is as before. Without a node it changes
  -- nothing.
  pub add_task-IsSorted :
      (ok : Bool) (c : C) (k : ℕ) (q : List (TaskNode C)) (top : ℕ)
      → IsSorted top q
      → k ≤ top
      → IsSorted top (add_task ok c k q)
        × ((p : ℕ)
            → of_priority p (add_task ok c k q)
              ≡ of_priority p q
                ++ (if ok then of_priority p (record { callback = c; priority = k } ∷ []) else []))
  unfolding add_task
  add_task-IsSorted false c k q top s le = (s, λ p. sym (append-nil (of_priority p q)))
  add_task-IsSorted true c k q top s le =
      let new : TaskNode C = record { callback = c; priority = k } in
      rw (enqueue_task-insert_after new q)
        (insert_after-IsSorted new q top le s, λ p. of_priority-insert_after new q p top s)

-- All tasks that have a higher priority than `k`, and all that have not.
module _ {C : Type 0} where
  pub urgent : ℕ → List (TaskNode C) → List (TaskNode C)
  urgent k [] = []
  urgent k (t ∷ rest) =
      let others = urgent k rest in if ltb k t.priority then t ∷ others else others

  pub not_urgent : ℕ → List (TaskNode C) → List (TaskNode C)
  not_urgent k [] = []
  not_urgent k (t ∷ rest) =
      let others = not_urgent k rest in if ltb k t.priority then others else t ∷ others

  -- The callbacks of the tasks, one after the other, each at the priority of its task.
  pub run_each : {W : Type 0} → (C → ℕ → W → W) → List (TaskNode C) → W → W
  run_each call [] kernel = kernel
  run_each call (t ∷ rest) kernel = run_each call rest (call t.callback t.priority kernel)

  -- Behind a task that is not urgent a sorted queue has no urgent one.
  none_urgent :
      (k top : ℕ) (q : List (TaskNode C))
      → IsSorted top q
      → top ≤ k
      → (urgent k q ≡ []) × (not_urgent k q ≡ q)
  unfolding urgent not_urgent
  none_urgent k top [] s l = (refl, refl)
  none_urgent k top (t ∷ rest) (le, s) l =
      let low : ltb k t.priority ≡ false = ground arith in
      let (none', all) = none_urgent k t.priority rest s (omega arith) in
      rw low (none', ap (λ r. t ∷ r) all)

module _ {C W : Type 0} (call : C → ℕ → W → W) where
  abbrev pub quiet_call : C → World C W → World C W
  quiet_call c w = record w { kernel = call c w.running w.kernel }

  -- On a sorted queue and with callbacks that leave the queue alone, `run_tasks` runs all tasks of
  -- higher priority than the one that runs, in the order of the queue and each at its own priority,
  -- leaves all others in their order, and has the priority that ran before; as many turns as there
  -- are tasks are enough.
  pub run_tasks-urgent :
      (fuel top : ℕ) (w : World C W)
      → IsSorted top w.queue
      → length w.queue ≤ fuel
      → run_tasks quiet_call fuel w ≡ record w {
        queue = not_urgent w.running w.queue;
        kernel = run_each call (urgent w.running w.queue) w.kernel;
      }
  unfolding run_tasks next_task urgent not_urgent run_each
  run_tasks-urgent fuel top w sorted enough = go fuel top w.queue w.running w.kernel sorted enough
    where
      go :
          (fuel top : ℕ) (q : List (TaskNode C)) (k : ℕ) (kernel : W)
          → IsSorted top q
          → length q ≤ fuel
          → run_tasks quiet_call fuel (record { queue = q; running = k; kernel = kernel })
            ≡ record {
              queue = not_urgent k q;
              running = k;
              kernel = run_each call (urgent k q) kernel;
            }
      go zero top [] k kernel s l = refl
      go (suc fuel) top [] k kernel s l = refl
      go zero top (t ∷ rest) k kernel s l = absurd (omega arith)
      go (suc fuel) top (t ∷ rest) k kernel (le, s) l = elim (Bool-cases (leb t.priority k)) [
        | inl not' ↦
            let low : ltb k t.priority ≡ false = ground arith in
            let (none', all) = none_urgent k t.priority rest s (ground arith) in
            rw (not', run_tasks, low, none', all) refl
        | inr high ↦
            let above : ltb k t.priority ≡ true = ground arith in
            rw (high, run_tasks, above)
              (go fuel t.priority rest k (call t.callback t.priority kernel) s (omega arith))
      ]
