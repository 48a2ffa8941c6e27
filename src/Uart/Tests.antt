-- ===== src/Uart/Tests.antt =====
-- A buffer that wraps round, and a transmitter that takes two characters.
use bare_metal_os.Base.{
  ℕ, ◌-◌, ◌≤◌, ◌≡◌, refl, false, some, List, [], ◌∷◌, ◌++◌, arith, ltb, ◌==◌, if◌then◌else◌,
}
use bare_metal_os.Uart.{
  ringbuf_push, ringbuf_pop, newline, getc_nonblocking, try_tx, uart_try_tx, RingBuf, Transmitter,
}
use bare_metal_os.Uart.Queue.{
  run, contents, enqueue, dequeue, ringbuf_push-enqueue, ringbuf_pop-dequeue, IsRing,
}
use bare_metal_os.Uart.Transmit.{uart_try_tx-fifo, Sends}

-- Three characters, in the last position and the first two.
abbrev wrapped : RingBuf
wrapped = record {
  buffer = λ i. if i == 2047 then 72 else if i == 0 then 13 else 33;
  head = 2;
  tail = 2047;
}

wrapped-IsRing : IsRing wrapped
wrapped-IsRing = record { head = omega arith; tail = omega arith }

wrapped-contents : contents wrapped ≡ 72 ∷ 13 ∷ 33 ∷ []
unfolding contents run
wrapped-contents = refl

full : ringbuf_push 1 (record wrapped { tail = 3 }) ≡ (false, record wrapped { tail = 3 })
unfolding ringbuf_push
full = refl

reads_newline : (getc_nonblocking (ringbuf_pop wrapped).1).0 ≡ some 10
unfolding getc_nonblocking ringbuf_pop newline
reads_newline = refl

-- How many characters it takes yet, and those sent; a character that it cannot take is lost.
abbrev two_slots : Transmitter (ℕ × List ℕ)
two_slots = record {
  ready = λ d. (ltb 0 d.0, d);
  put = λ c d. if ltb 0 d.0 then (d.0 - 1, d.1 ++ (c ∷ [])) else d;
  thri_off = λ d. d;
}

two_slots-Sends : Sends two_slots (λ d. d.1)
two_slots-Sends = record { keeps = λ d. refl; sends = λ c d ok. rw ok refl; off = λ d. refl }

sends_two : (uart_try_tx two_slots wrapped (2, [])).1 ≡ (0, 72 ∷ 13 ∷ [])
unfolding uart_try_tx try_tx ringbuf_pop
sends_two = refl

ringbuf_push-enqueue_example :
    let (ok, ring') = ringbuf_push 65 wrapped in
    IsRing ring' × ((ok, contents ring') ≡ enqueue 65 (contents wrapped))
ringbuf_push-enqueue_example = ringbuf_push-enqueue 65 wrapped-IsRing

ringbuf_pop-dequeue_example :
    let (c, ring') = ringbuf_pop wrapped in
    IsRing ring' × ((c, contents ring') ≡ dequeue (contents wrapped))
ringbuf_pop-dequeue_example = ringbuf_pop-dequeue wrapped-IsRing

uart_try_tx-fifo_example :
    let (ring', d') = uart_try_tx two_slots wrapped (2, []) in
    IsRing ring'
    × (d'.1 ++ contents ring' ≡ [] ++ contents wrapped)
    × ((n : ℕ)
        → 2048 ≤ n
        → try_tx two_slots n wrapped (2, []) ≡ uart_try_tx two_slots wrapped (2, []))
uart_try_tx-fifo_example =
    uart_try_tx-fifo two_slots (λ d. d.1) two_slots-Sends wrapped (2, []) wrapped-IsRing
