-- ===== src/Timer/Order.antt =====
-- The list of timers is sorted, and the hardware timer is set for its first timer.
use bare_metal_os.Base.{
  ℕ, ◌+◌, ◌≤◌, ◌<◌, ◌≡◌, refl, ap, inl, inr, Bool, true, false, Option, List, [], ◌∷◌, arith, ltb,
  leb, if◌then◌else◌, Bool-cases,
}
use bare_metal_os.Base.Words.{add64}
use bare_metal_os.Task.{TaskNode}
use bare_metal_os.Timer.{
  insert_timer, comes_first, add_timer_ticks, add_expired, expire, next_time,
  handle_timer_interrupt, TimerNode, Timers,
}

module _ {C : Type 0} where
  -- Every timer expires at `k` or later, and no timer before the one in front of it.
  abbrev pub Ascending : ℕ → List (TimerNode C) → Type 0
  Ascending k [] = Unit
  Ascending k (t ∷ rest) = (k ≤ t.expire_time) × Ascending t.expire_time rest

  pub record IsArmed (s : Timers C) : Type 0 where
    pub sorted : Ascending 0 s.timer_list
    pub armed : s.hardware ≡ next_time s.timer_list

  -- The timers that have expired at time `now`, and the others, in a sorted list.
  pub expired : ℕ → List (TimerNode C) → List (TimerNode C)
  expired now [] = []
  expired now (t ∷ rest) =
      let more = expired now rest in if leb t.expire_time now then t ∷ more else more

  pub pending : ℕ → List (TimerNode C) → List (TimerNode C)
  pending now [] = []
  pending now (t ∷ rest) =
      let more = pending now rest in if leb t.expire_time now then more else t ∷ more

  -- The tasks of a list of timers.
  pub add_each : (ℕ → Bool) → ℕ → List (TimerNode C) → List (TaskNode C) → List (TaskNode C)
  add_each ok i [] tasks = tasks
  add_each ok i (t ∷ rest) tasks = add_each ok (i + 1) rest (add_expired (ok i) t.callback tasks)

  insert_timer-Ascending :
      (new : TimerNode C) (l : List (TimerNode C)) (k : ℕ)
      → Ascending k l
      → k ≤ new.expire_time
      → Ascending k (insert_timer new l)
  unfolding insert_timer
  insert_timer-Ascending new [] k s le = (le, tt)
  insert_timer-Ascending new (t ∷ rest) k (lo, s) le =
      elim (Bool-cases (ltb new.expire_time t.expire_time)) [
        | inl sooner ↦ rw sooner (le, (ground arith, s))
        | inr later ↦ rw later (lo, insert_timer-Ascending new rest t.expire_time s (ground arith))
      ]

  next_time-insert_timer :
      (new : TimerNode C) (l : List (TimerNode C))
      → (if comes_first new l then new.expire_time else next_time l)
        ≡ next_time (insert_timer new l)
  unfolding insert_timer comes_first next_time
  next_time-insert_timer new [] = refl
  next_time-insert_timer new (t ∷ rest) = elim (Bool-cases (ltb new.expire_time t.expire_time)) [
    | inl sooner ↦ rw sooner refl
    | inr later ↦ rw later refl
  ]

  -- `add_timer_ticks` keeps the list sorted and the hardware timer set for the first timer; without
  -- a node it fails and changes nothing.
  pub add_timer_ticks-IsArmed :
      (ok : Bool) (now : ℕ) (c : Option C) (ticks : ℕ) {s : Timers C}
      → IsArmed s
      → IsArmed (add_timer_ticks ok now c ticks s).1
        × ((add_timer_ticks ok now c ticks s).0 ≡ ok)
        × (ok ≡ false → (add_timer_ticks ok now c ticks s).1 ≡ s)
  unfolding add_timer_ticks
  add_timer_ticks-IsArmed false now c ticks a = (a, refl, λ e. refl)
  add_timer_ticks-IsArmed true now c ticks {s} a =
      let new : TimerNode C = record { expire_time = add64 now ticks; callback = c } in
      (
        record {
          sorted = insert_timer-Ascending new s.timer_list 0 a.sorted (omega arith);
          armed = rw a.armed (next_time-insert_timer new s.timer_list);
        },
        refl,
        λ e. absurd (ground arith),
      )

  none-expired :
      (now k : ℕ) (l : List (TimerNode C))
      → Ascending k l
      → now < k
      → (expired now l ≡ []) × (pending now l ≡ l)
  unfolding expired pending
  none-expired now k [] s lt = (refl, refl)
  none-expired now k (t ∷ rest) (lo, s) lt =
      let (e, p) = none-expired now t.expire_time rest s (omega arith) in
      let t' : leb t.expire_time now ≡ false = ground arith in rw (t', e, p) (refl, refl)

  expire_lem :
      (now : ℕ) (ok : ℕ → Bool) (i k : ℕ) (l : List (TimerNode C)) (tasks : List (TaskNode C))
      → Ascending k l
      → expire (λ j. now) ok i l tasks ≡ (pending now l, add_each ok i (expired now l) tasks)
  unfolding expire expired pending add_each
  expire_lem now ok i k [] tasks s = refl
  expire_lem now ok i k (t ∷ rest) tasks (lo, s) = elim (Bool-cases (leb t.expire_time now)) [
    | inl due ↦
        rw due
          (expire_lem now ok (i + 1) t.expire_time rest (add_expired (ok i) t.callback tasks) s)
    | inr early ↦
        let (e, p) = none-expired now t.expire_time rest s (ground arith) in rw (early, e, p) refl
  ]

  Ascending-weaken : (k k' : ℕ) (l : List (TimerNode C)) → k ≤ k' → Ascending k' l → Ascending k l
  Ascending-weaken k k' [] le s = tt
  Ascending-weaken k k' (t ∷ rest) le (lo, s) = (omega arith, s)

  expire-Ascending :
      (clock : ℕ → ℕ) (ok : ℕ → Bool) (i k : ℕ) (l : List (TimerNode C)) (tasks : List (TaskNode C))
      → Ascending k l
      → Ascending k (expire clock ok i l tasks).0
  unfolding expire
  expire-Ascending clock ok i k [] tasks s = tt
  expire-Ascending clock ok i k (t ∷ rest) tasks (lo, s) =
      elim (Bool-cases (leb t.expire_time (clock i))) [
        | inr early ↦ rw early (lo, s)
        | inl due ↦
            let more =
              expire-Ascending clock ok (i + 1) t.expire_time rest
                (add_expired (ok i) t.callback tasks) s in
            rw due (Ascending-weaken k t.expire_time _ lo more)
      ]

  -- Whatever the clock shows while it runs, `handle_timer_interrupt` leaves a sorted list and the
  -- hardware timer set for its first timer, or for no timer if there is none.
  pub handle_timer_interrupt-IsArmed :
      (clock : ℕ → ℕ) (ok : ℕ → Bool) {s : Timers C}
      → IsArmed s
      → IsArmed (handle_timer_interrupt clock ok s)
  unfolding handle_timer_interrupt
  handle_timer_interrupt-IsArmed clock ok {s} a = record {
    sorted = expire-Ascending clock ok 0 0 s.timer_list s.tasks a.sorted;
    armed = refl;
  }

  -- If the clock stands still while it runs, `handle_timer_interrupt` takes off the list exactly the
  -- timers that have expired, and adds the tasks of these in the order of their times.
  pub handle_timer_interrupt-expired :
      (now : ℕ) (ok : ℕ → Bool) {s : Timers C}
      → IsArmed s
      → let s' = handle_timer_interrupt (λ i. now) ok s in
        (s'.timer_list ≡ pending now s.timer_list)
        × (s'.tasks ≡ add_each ok 0 (expired now s.timer_list) s.tasks)
  unfolding handle_timer_interrupt
  handle_timer_interrupt-expired now ok {s} a =
      let e = expire_lem now ok 0 0 s.timer_list s.tasks a.sorted in
      (ap (λ p. p.0) e, ap (λ p. p.1) e)
