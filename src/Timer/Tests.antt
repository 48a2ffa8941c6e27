-- ===== src/Timer/Tests.antt =====
-- Two timers, of which one has expired.
use bare_metal_os.Base.{ℕ, ◌≡◌, refl, true, false, some, [], ◌∷◌, arith}
use bare_metal_os.Timer.{
  add_timer_ticks, expire, next_time, handle_timer_interrupt, TimerNode, Timers,
}
use bare_metal_os.Timer.Order.{
  IsArmed, pending, expired, add_each, add_timer_ticks-IsArmed, handle_timer_interrupt-expired,
}

abbrev timer : ℕ → ℕ → TimerNode ℕ
timer t c = record { expire_time = t; callback = some c }

abbrev two : Timers ℕ
two = record { timer_list = timer 100 1 ∷ timer 300 2 ∷ []; hardware = 100; tasks = [] }

two-IsArmed : IsArmed two
two-IsArmed = record { sorted = (omega arith, (omega arith, tt)); armed = unfold next_time in refl }

rearmed : (handle_timer_interrupt (λ i. 200) (λ i. true) two).hardware ≡ 300
unfolding handle_timer_interrupt expire next_time
rearmed = refl

add_timer_ticks-IsArmed_example :
    IsArmed (add_timer_ticks true 20 (some 3) 50 two).1
    × ((add_timer_ticks true 20 (some 3) 50 two).0 ≡ true)
    × (true ≡ false → (add_timer_ticks true 20 (some 3) 50 two).1 ≡ two)
add_timer_ticks-IsArmed_example = add_timer_ticks-IsArmed true 20 (some 3) 50 two-IsArmed

handle_timer_interrupt-expired_example :
    let s' = handle_timer_interrupt (λ i. 200) (λ i. true) two in
    (s'.timer_list ≡ pending 200 two.timer_list)
    × (s'.tasks ≡ add_each (λ i. true) 0 (expired 200 two.timer_list) [])
handle_timer_interrupt-expired_example = handle_timer_interrupt-expired 200 (λ i. true) two-IsArmed
