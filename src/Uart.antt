-- ===== src/Uart.antt =====
-- src/uart.c: the ring buffers between the interrupt handler and the readers and writers, and the
-- transmitting side.
pub mod Queue
pub mod Transmit
mod Tests
use bare_metal_os.Base.{
  ℕ, zero, suc, ◌+◌, ◌%◌, Bool, true, false, Option, none, some, ◌==◌, if◌then◌else◌, update,
}

-- RINGBUF_SIZE
abbrev pub ringbuf_size : ℕ
ringbuf_size = 2048

-- `ringbuf_t`: the next position to write and the next to read.
pub record RingBuf : Type 0 where
  pub buffer : ℕ → ℕ
  pub head : ℕ
  pub tail : ℕ

-- 1 for success, 0 for a full buffer.
pub ringbuf_push : ℕ → RingBuf → Bool × RingBuf
ringbuf_push c ring =
    let next = (ring.head + 1) % ringbuf_size in
    if next == ring.tail
    then (false, ring)
    else (true, record ring { buffer = update ring.buffer ring.head c; head = next })

-- The oldest character, `none` for an empty buffer.
pub ringbuf_pop : RingBuf → Option ℕ × RingBuf
ringbuf_pop ring =
    if ring.head == ring.tail
    then (none, ring)
    else (some (ring.buffer ring.tail), record ring { tail = (ring.tail + 1) % ringbuf_size })

-- '\r' becomes '\n'.
pub newline : ℕ → ℕ
newline c = if c == 13 then 10 else c

-- `uart_getc_nonblocking` in async mode; `none` is -1.
pub getc_nonblocking : RingBuf → Option ℕ × RingBuf
getc_nonblocking ring =
    let (c, ring') = ringbuf_pop ring in (elim c [ none ↦ none | some x ↦ some (newline x) ], ring')

-- The transmitter: reading UART_LSR for LSR_TDRQ, writing UART_THR, clearing IER_THRI.
pub record Transmitter (D : Type 0) : Type 0 where
  pub ready : D → Bool × D
  pub put : ℕ → D → D
  pub thri_off : D → D

module _ {D : Type 0} (dev : Transmitter D) where
  -- `uart_try_tx`, on fuel: each turn takes a character, so that a buffer's size is enough.
  pub try_tx : ℕ → RingBuf → D → RingBuf × D
  try_tx zero ring d = (ring, d)
  try_tx (suc fuel) ring d =
      let (ok, d') = dev.ready d in
      let (c, ring') = ringbuf_pop ring in
      elim ok [
        | false ↦ (ring, d')
        | true ↦ elim c [
          | none ↦ (ring', dev.thri_off d')
          | some x ↦ try_tx fuel ring' (dev.put x d')
        ]
      ]

  pub uart_try_tx : RingBuf → D → RingBuf × D
  uart_try_tx ring d = try_tx ringbuf_size ring d
