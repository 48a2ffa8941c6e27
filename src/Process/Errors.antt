-- ===== src/Process/Errors.antt =====
-- src/syscall.c: what a signal does, which files a descriptor opens, and the errors of both.
use bare_metal_os.Base.{
  ℕ, ◌^◌, ◌≤◌, ◌<◌, bit_or, ◌≡◌, refl, ap, ◌∙◌, ◌≢◌, ◌⊎◌, inl, inr, Bool, true, false, not, ◌&&◌,
  ◌||◌, none, some, arith, ◌==◌, if◌then◌else◌, Bool-cases, Option-cases, update, count,
}
use bare_metal_os.Base.Words.{minus_one}
use native.Mathlib.Decide.{ℕ_discrete}
use bare_metal_os.Kernel.{
  is_zombie, is_waiting, status_of, set_status, find_pid, Thread, Kernel, ready, aborted,
}
use bare_metal_os.Threads.{wake_parent}
use bare_metal_os.Process.{not_positive, no_signal, abort_thread, live_thread, pend, sys_kill}
use bare_metal_os.Process.Lookup.{
  IsFirst, HasEnded, is_zombie-HasEnded, HasEnded-is_zombie, find_pid-none, find_pid-IsFirst,
}
use bare_metal_os.Base.Bits.{pow2}
use bare_metal_os.Process.Scheduled.{live_thread-some}

-- The one parent that a thread's end wakes up.
abbrev pub waits_for : Kernel → ℕ → Bool
waits_for k t =
    let p : Thread = k.threads (k.threads t).parent in
    not ((k.threads t).parent == 0)
    && (is_waiting p.status
        && ((p.waiting_pid == (k.threads t).pid) || (p.waiting_pid == minus_one)))

wake_parent-others :
    (t : ℕ) (k : Kernel)
    → (status_of (wake_parent t (set_status t aborted k)) t ≡ aborted)
      × ((x : ℕ)
          → x ≢ t
          → status_of (wake_parent t (set_status t aborted k)) x
            ≡ (if (x == (k.threads t).parent) && waits_for k t then ready else status_of k x))
unfolding wake_parent
wake_parent-others t k = (ground arith, λ x other. ground arith)

abort_thread-wake_parent :
    (t : ℕ) (k : Kernel) → t ≢ k.current → abort_thread t k ≡ wake_parent t (set_status t aborted k)
unfolding abort_thread
abort_thread-wake_parent t k ne =
    let other : (t == k.current) ≡ false = ground arith in rw (abort_thread, other) refl

sys_kill-sends :
    (pid signum t : ℕ) (k : Kernel)
    → live_thread pid k ≡ some t
    → (no_signal signum || not_positive pid) ≡ false
    → ((k.threads t).signal_handler signum ≢ 0 → sys_kill pid signum k ≡ (0, pend t signum k))
      × ((k.threads t).signal_handler signum ≡ 0 → sys_kill pid signum k ≡ (0, abort_thread t k))
unfolding sys_kill
sys_kill-sends pid signum t k e p = (
  λ h.
      let handled : ((k.threads t).signal_handler signum == 0) ≡ false = ground arith in
      rw (sys_kill, e, p, handled) refl,
  λ h.
      let default : ((k.threads t).signal_handler signum == 0) ≡ true = ground arith in
      rw (sys_kill, e, p, default) refl,
)

-- No signal from 0 to 31, as the pattern of an `int`, or a PID that is not positive, as that of a
-- `long`.
abbrev pub IsInvalid : ℕ → ℕ → Type 0
IsInvalid pid signum = (32 ≤ signum) ⊎ (pid ≡ 0) ⊎ (2 ^ 63 ≤ pid)

-- The two outcomes of `sys_kill`: it fails, or the signal is sent.
abbrev pub IsRefused : ℕ → ℕ → Kernel → Type 0
IsRefused pid signum k =
    (sys_kill pid signum k ≡ (0xffffffffffffffff, k))
    × (IsInvalid pid signum
        ⊎ ((x : ℕ) → 0 < count x k.run_queue → (k.threads x).pid ≢ pid)
        ⊎ ((t : ℕ) × IsFirst k.threads pid k.run_queue t × HasEnded k t))

abbrev pub IsSent : ℕ → ℕ → Kernel → ℕ → Type 0
IsSent pid signum k t =
    let k' = (sys_kill pid signum k).1 in
    let target : Thread = k.threads t in
    IsFirst k.threads pid k.run_queue t
    × (¬ HasEnded k t)
    × (signum < 32)
    × (0 < pid)
    × (pid < 2 ^ 63)
    × ((sys_kill pid signum k).0 ≡ 0)
    × (target.signal_handler signum ≢ 0
        → k' ≡ record k {
          threads =
              update k.threads t
                (record target { sigpending = bit_or target.sigpending (pow2 signum) });
        })
    × (target.signal_handler signum ≡ 0
        → t ≢ k.current
        → (status_of k' t ≡ aborted)
          × ((x : ℕ)
              → x ≢ t
              → status_of k' x
                ≡ (if (x == (k.threads t).parent) && waits_for k t then ready else status_of k x)))

live_thread-none :
    (pid : ℕ) (k : Kernel)
    → live_thread pid k ≡ none
    → ((x : ℕ) → 0 < count x k.run_queue → (k.threads x).pid ≢ pid)
      ⊎ ((t : ℕ) × IsFirst k.threads pid k.run_queue t × HasEnded k t)
unfolding live_thread
live_thread-none pid k e = elim (Option-cases (find_pid k.threads pid k.run_queue)) [
  | inl miss ↦ inl (find_pid-none k.threads pid k.run_queue miss)
  | inr (t, hit) ↦
      let ended : is_zombie (status_of k t) ≡ true = ground arith in
      inr (t, find_pid-IsFirst k.threads pid k.run_queue t hit, is_zombie-HasEnded k t ended)
]

live_thread-IsFirst :
    (pid t : ℕ) (k : Kernel) → live_thread pid k ≡ some t → IsFirst k.threads pid k.run_queue t
unfolding live_thread
live_thread-IsFirst pid t k e = find_pid-IsFirst k.threads pid k.run_queue t (ground arith)

invalid : (pid signum : ℕ) → (no_signal signum || not_positive pid) ≡ true → IsInvalid pid signum
invalid pid signum e = ground arith

valid :
    (pid signum : ℕ)
    → (no_signal signum || not_positive pid) ≡ false
    → (signum < 32) × (0 < pid) × (pid < 2 ^ 63)
valid pid signum e = ground arith

-- Sending a signal, on every branch. Either `sys_kill` returns -1 and changes nothing, and then the
-- signal is not from 0 to 31, the PID is not positive, no queued thread has the PID, or the first in
-- the queue that has it is TERMINATED or ABORTED. Or it returns 0, and the signal and the PID are
-- right and the first queued thread of the PID is alive: with a handler for the signal its bit
-- becomes pending and nothing else changes; without one, and if it is not the current thread, it is
-- aborted, its parent becomes READY if it is WAITING for this PID or for any, and the status of no
-- other thread changes.
pub sys_kill_lem :
    (pid signum : ℕ) (k : Kernel) → IsRefused pid signum k ⊎ ((t : ℕ) × IsSent pid signum k t)
unfolding sys_kill
sys_kill_lem pid signum k = elim (Option-cases (live_thread pid k)) [
  | inl e ↦ inl (rw (sys_kill, e) refl, inr (live_thread-none pid k e))
  | inr (t, e) ↦ elim (Bool-cases (no_signal signum || not_positive pid)) [
    | inl p ↦ inl (rw (sys_kill, e, p) refl, inl (invalid pid signum p))
    | inr p ↦
        let (_, _, alive) = live_thread-some pid t k e in
        let (handled, default) = sys_kill-sends pid signum t k e p in
        let (few, some_pid, small) = valid pid signum p in
        let zero_result : (sys_kill pid signum k).0 ≡ 0 =
          elim (ℕ_discrete ((k.threads t).signal_handler signum) 0) [
            | yes h ↦ ap (λ r. r.0) (default h)
            | no h ↦ ap (λ r. r.0) (handled h)
          ] in
        inr (
          t,
          (
            live_thread-IsFirst pid t k e,
            HasEnded-is_zombie k t alive,
            few,
            some_pid,
            small,
            zero_result,
            λ h. ap (λ r. r.1) (handled h),
            λ h ne.
                let (ended, others) = wake_parent-others t k in
                let after = ap (λ r. r.1) (default h) ∙ abort_thread-wake_parent t k ne in
                (
                  ap (λ x. status_of x t) after ∙ ended,
                  λ x other. ap (λ y. status_of y x) after ∙ others x other,
                ),
          ),
        )
  ]
]
