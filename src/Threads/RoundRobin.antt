-- ===== src/Threads/RoundRobin.antt =====
-- src/thread.c: the scheduler goes round: each thread that is READY gets its turn.
use bare_metal_os.Base.{
  ℕ, zero, suc, ◌+◌, ◌≤◌, ◌<◌, ◌≡◌, refl, sym, ap, ◌∙◌, inl, inr, true, some, List, [], ◌∷◌, ◌++◌,
  append_assoc, arith, ◌==◌, if◌then◌else◌, Bool-cases, Nat-cases, length, length-append, count,
}
use native.Mathlib.Decide.{ℕ_discrete}
use bare_metal_os.Kernel.{is_runnable, status_of, Thread, Kernel}
use bare_metal_os.Threads.{behind, up_to, ring_from, first_runnable, pick_next, hand_over, schedule}
use bare_metal_os.Threads.Running.{
  count-append, count-ring, hand_over-fields, schedule-hand_over, schedule-IsScheduled, IsTidy,
}

-- How many threads stand before one.
abbrev position : ℕ → List ℕ → ℕ
position t [] = 0
position t (x ∷ xs) = if x == t then 0 else suc (position t xs)

position-length : (t : ℕ) (xs : List ℕ) → 0 < count t xs → position t xs < length xs
position-length t [] h = absurd (omega arith)
position-length t (x ∷ xs) h = ground (arith, position-length t xs)

position-same :
    (x t : ℕ) (xs : List ℕ)
    → 0 < count x xs
    → 0 < count t xs
    → position x xs ≡ position t xs
    → x ≡ t
position-same x t [] h i e = absurd (omega arith)
position-same x t (y ∷ ys) h i e = ground (arith, position-same x t ys)

position-append : (t : ℕ) (xs ys : List ℕ) → 0 < count t xs → position t (xs ++ ys) ≡ position t xs
position-append t [] ys h = absurd (omega arith)
position-append t (x ∷ xs) ys h = ground (arith, position-append t xs ys)

-- What stands behind a thread stands nearer to what comes later.
position-behind :
    (x t : ℕ) (xs : List ℕ)
    → 0 < count x xs
    → 0 < count t xs
    → position x xs < position t xs
    → (0 < count t (behind x xs)) × (position t (behind x xs) < position t xs)
unfolding behind
position-behind x t [] h i l = absurd (omega arith)
position-behind x t (y ∷ ys) h i l = ground (arith, position-behind x t ys)

-- The first thread that can run stands no later than any that can.
first_runnable-position :
    (threads : ℕ → Thread) (xs : List ℕ) (t : ℕ)
    → 0 < count t xs
    → is_runnable (threads t).status ≡ true
    → (x : ℕ) × (first_runnable threads xs ≡ some x)
      × (0 < count x xs)
      × (position x xs ≤ position t xs)
unfolding first_runnable
first_runnable-position threads [] t h r = absurd (omega arith)
first_runnable-position threads (y ∷ ys) t h r =
    elim (Bool-cases (is_runnable (threads y).status)) [
      | inl e ↦ (y, rw (e, first_runnable) refl, ground arith, ground arith)
      | inr e ↦
          let later : 0 < count t ys = ground (arith, ap (λ u. is_runnable (threads u).status)) in
          let (x, found, there, le) = first_runnable-position threads ys t later r in
          (
            x,
            rw (e, first_runnable) found,
            ground arith,
            ground (arith, ap (λ u. is_runnable (threads u).status)),
          )
    ]

behind-append :
    (x : ℕ) (xs ys : List ℕ)
    → (0 < count x xs
        → (behind x (xs ++ ys) ≡ behind x xs ++ ys) × (up_to x (xs ++ ys) ≡ up_to x xs))
      × (count x xs ≡ 0
          → (behind x (xs ++ ys) ≡ behind x ys) × (up_to x (xs ++ ys) ≡ xs ++ up_to x ys))
unfolding behind up_to
behind-append x [] ys = (λ h. absurd (omega arith), λ h. (refl, refl))
behind-append x (y ∷ xs) ys = ground (arith, behind-append x xs ys)

up_to-behind : (x : ℕ) (xs : List ℕ) → 0 < count x xs → up_to x xs ++ behind x xs ≡ xs
unfolding behind up_to
up_to-behind x [] h = absurd (omega arith)
up_to-behind x (y ∷ ys) h = ground (arith, up_to-behind x ys)

-- The circular list from a thread is the same wherever the list was cut.
ring_from-append :
    (x : ℕ) (xs ys : List ℕ)
    → count x xs + count x ys ≡ 1
    → ring_from x (xs ++ ys) ≡ ring_from x (ys ++ xs)
ring_from-append x xs ys h = elim (Nat-cases (count x xs)) [
  | inl none_here ↦
      let (_, b) = behind-append x xs ys in
      let (c, _) = behind-append x ys xs in
      let (b0, b1) = b none_here in
      let (c0, c1) = c (omega arith) in
      rw (b0, b1, c0, c1) (sym (append_assoc (behind x ys) xs (up_to x ys)))
  | inr (n, one_here) ↦
      let (b, _) = behind-append x xs ys in
      let (_, c) = behind-append x ys xs in
      let (b0, b1) = b (omega arith) in
      let (c0, c1) = c (omega arith) in
      rw (b0, b1, c0, c1) (append_assoc (behind x xs) ys (up_to x xs))
]

ring_from-ring_from :
    (c x : ℕ) (queue : List ℕ)
    → 0 < count c queue
    → count x queue ≡ 1
    → ring_from x queue ≡ ring_from x (ring_from c queue)
ring_from-ring_from c x queue h e =
    ap (ring_from x) (sym (up_to-behind c queue h))
    ∙ ring_from-append x (up_to c queue) (behind c queue) (omega (arith, count-ring x c queue))

length-ring :
    (t : ℕ) (queue : List ℕ) → length (behind t queue) + length (up_to t queue) ≡ length queue
unfolding behind up_to
length-ring t [] = refl
length-ring t (x ∷ xs) = ground (arith, length-ring t xs)

-- `schedule` called time and again.
abbrev pub schedules : ℕ → Kernel → Kernel
schedules zero k = k
schedules (suc n) k = schedules n (schedule k)

hand_over-runnable :
    (p n : ℕ) (k : Kernel) (t : ℕ)
    → is_runnable (status_of k t) ≡ true
    → is_runnable (status_of (hand_over p n k) t) ≡ true
unfolding hand_over
hand_over-runnable p n k t h = ground arith

-- Where some queued thread can run, `schedule` switches to the first one behind the current.
pub schedule-first :
    (k : Kernel) (x : ℕ)
    → IsTidy k
    → first_runnable k.threads (ring_from k.current k.run_queue) ≡ some x
    → ((schedule k).current ≡ x)
      × ((schedule k).run_queue ≡ k.run_queue)
      × ((t : ℕ)
          → is_runnable (status_of k t) ≡ true
          → is_runnable (status_of (schedule k) t) ≡ true)
unfolding pick_next
schedule-first k x i e =
    let here : 0 < k.current = i.exists k.current (omega (arith, i.queued)) in
    let picked : pick_next k ≡ x = rw (e, pick_next) refl in
    let (queue, _, _, _) = hand_over-fields k.current (pick_next k) k in
    rw (schedule-hand_over k here)
      (picked, queue, λ t r. hand_over-runnable k.current (pick_next k) k t r)

-- The turn comes within as many calls as there are threads up to it.
turn_comes :
    (n : ℕ) (k : Kernel) (t : ℕ)
    → IsTidy k
    → 0 < count t k.run_queue
    → is_runnable (status_of k t) ≡ true
    → position t (ring_from k.current k.run_queue) < n
    → (m : ℕ) × (m ≤ n) × ((schedules m k).current ≡ t)
turn_comes zero k t i q r h = absurd (omega arith)
turn_comes (suc n) k t i q r h =
    let ring : List ℕ = ring_from k.current k.run_queue in
    let all = λ (a : ℕ).
      count-append a (behind k.current k.run_queue) (up_to k.current k.run_queue)
      ∙ count-ring a k.current k.run_queue in
    let in_ring : 0 < count t ring = omega (arith, all t) in
    let (x, found, there, le) = first_runnable-position k.threads ring t in_ring r in
    let (cur, queue, still) = schedule-first k x i found in
    elim (ℕ_discrete (position x ring) (position t ring)) [
      | yes e ↦ (1, omega arith, cur ∙ position-same x t ring there in_ring e)
      | no ne ↦
          let (later, nearer) = position-behind x t ring there in_ring (omega arith) in
          let once : count x k.run_queue ≡ 1 = omega (arith, all x, i.once x) in
          let turned : ring_from (schedule k).current (schedule k).run_queue ≡ ring_from x ring =
            rw (cur, queue)
              (ring_from-ring_from k.current x k.run_queue (omega (arith, i.queued)) once) in
          let near =
            ap (position t) turned ∙ position-append t (behind x ring) (up_to x ring) later in
          let (m, le', turn) =
            turn_comes n (schedule k) t (schedule-IsScheduled k i).tidy (rw queue q) (still t r)
              (omega (arith, near)) in
          (suc m, omega arith, turn)
    ]

-- Liveness of the scheduler: from a state where the current thread is queued and alone is RUNNING,
-- each queued thread that is READY (or RUNNING) is the current thread after at most as many calls
-- of `schedule` as there are threads in the run queue, if nothing else happens between them.
pub schedules_reach :
    (k : Kernel) (t : ℕ)
    → IsTidy k
    → 0 < count t k.run_queue
    → is_runnable (status_of k t) ≡ true
    → (m : ℕ) × (m ≤ length k.run_queue) × ((schedules m k).current ≡ t)
schedules_reach k t i q r =
    let ring : List ℕ = ring_from k.current k.run_queue in
    let all = λ (a : ℕ).
      count-append a (behind k.current k.run_queue) (up_to k.current k.run_queue)
      ∙ count-ring a k.current k.run_queue in
    let size : length ring ≡ length k.run_queue =
      length-append (behind k.current k.run_queue) (up_to k.current k.run_queue)
      ∙ length-ring k.current k.run_queue in
    turn_comes (length k.run_queue) k t i q r
      (omega (arith, position-length t ring (omega (arith, all t)), size))
