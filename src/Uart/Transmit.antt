-- ===== src/Uart/Transmit.antt =====
-- `uart_try_tx`: what is sent, and that the fuel is enough.
use bare_metal_os.Base.{
  ℕ, zero, suc, ◌≤◌, ◌<◌, ◌≡◌, refl, sym, ap, ◌∙◌, ◌⊎◌, inl, inr, true, none, some, List, [], ◌∷◌,
  ◌++◌, append_assoc, arith, Bool-cases, length,
}
use bare_metal_os.Uart.{ringbuf_size, ringbuf_pop, try_tx, uart_try_tx, RingBuf, Transmitter}
use bare_metal_os.Uart.Queue.{contents, dequeue, ringbuf_pop-dequeue, length-contents, IsRing}

-- What the program relies on: a write to UART_THR after a read of UART_LSR that found the transmitter
-- ready sends the character behind those sent before; the other accesses send nothing. Of a write to a
-- transmitter that is not ready nothing is known.
pub record Sends {D : Type 0} (dev : Transmitter D) (sent : D → List ℕ) : Type 0 where
  pub keeps : (d : D) → sent (dev.ready d).1 ≡ sent d
  pub sends :
      (c : ℕ) (d : D)
      → (dev.ready d).0 ≡ true
      → sent (dev.put c (dev.ready d).1) ≡ sent (dev.ready d).1 ++ (c ∷ [])
  pub off : (d : D) → sent (dev.thri_off d) ≡ sent d

-- What popping does to the queue.
pop_cases :
    {ring : RingBuf}
    → IsRing ring
    → let (c, ring') = ringbuf_pop ring in
      IsRing ring'
      × (((c ≡ none) × (contents ring ≡ []) × (contents ring' ≡ []))
          ⊎ ((x : ℕ) × (c ≡ some x) × (contents ring ≡ x ∷ contents ring')))
unfolding dequeue
pop_cases {ring} v = let (v', e) = ringbuf_pop-dequeue v in (v', go (contents ring) e)
  where
    go :
        (q : List ℕ)
        → ((ringbuf_pop ring).0, contents (ringbuf_pop ring).1) ≡ dequeue q
        → (((ringbuf_pop ring).0 ≡ none) × (q ≡ []) × (contents (ringbuf_pop ring).1 ≡ []))
          ⊎ ((x : ℕ) × ((ringbuf_pop ring).0 ≡ some x) × (q ≡ x ∷ contents (ringbuf_pop ring).1))
    go [] e = inl (ap (λ p. p.0) e, refl, ap (λ p. p.1) e)
    go (x ∷ q) e = inr (x, ap (λ p. p.0) e, ap (λ l. x ∷ l) (sym (ap (λ p. p.1) e)))

module _ {D : Type 0} (dev : Transmitter D) (sent : D → List ℕ) (law : Sends dev sent) where
  try_tx-fifo :
      (fuel : ℕ) (ring : RingBuf) (d : D)
      → IsRing ring
      → let (ring', d') = try_tx dev fuel ring d in
        IsRing ring' × (sent d' ++ contents ring' ≡ sent d ++ contents ring)
  unfolding try_tx
  try_tx-fifo zero ring d v = (v, refl)
  try_tx-fifo (suc fuel) ring d v = elim (Bool-cases (dev.ready d).0) [
    | inr busy ↦ rw (busy, try_tx, law.keeps d) (v, refl)
    | inl ok ↦
        let (v', cases) = pop_cases v in
        elim cases [
          | inl (none', was, now) ↦
              rw (ok, none', try_tx, law.off (dev.ready d).1, law.keeps d, was, now) (v', refl)
          | inr (x, some', was) ↦
              let (v'', rest) =
                try_tx-fifo fuel (ringbuf_pop ring).1 (dev.put x (dev.ready d).1) v' in
              let sent' = law.sends x d ok ∙ ap (λ l. l ++ (x ∷ [])) (law.keeps d) in
              rw (ok, some', try_tx, was)
                (
                  v'',
                  rest
                      ∙ ap (λ l. l ++ contents (ringbuf_pop ring).1) sent'
                      ∙ append_assoc (sent d) (x ∷ []) (contents (ringbuf_pop ring).1),
                )
        ]
  ]

  -- Fuel for the characters in the buffer is enough: any two such fuels agree.
  try_tx-fuel :
      (m n : ℕ) (ring : RingBuf) (d : D)
      → IsRing ring
      → length (contents ring) < m
      → length (contents ring) < n
      → try_tx dev m ring d ≡ try_tx dev n ring d
  unfolding try_tx
  try_tx-fuel zero n ring d v l u = absurd (omega arith)
  try_tx-fuel (suc m) zero ring d v l u = absurd (omega arith)
  try_tx-fuel (suc m) (suc n) ring d v l u = elim (Bool-cases (dev.ready d).0) [
    | inr busy ↦ rw (busy, try_tx) refl
    | inl ok ↦
        let (v', cases) = pop_cases v in
        elim cases [
          | inl (none', _, _) ↦ rw (ok, none', try_tx) refl
          | inr (x, some', was) ↦
              let less : length (contents ring) ≡ suc (length (contents (ringbuf_pop ring).1)) =
                ap length was in
              rw (ok, some', try_tx)
                (try_tx-fuel m n (ringbuf_pop ring).1 (dev.put x (dev.ready d).1) v' (omega arith)
                  (omega arith))
        ]
  ]

  -- `uart_try_tx` keeps the positions in the buffer; the characters sent and then those left in the
  -- buffer are those that were sent and then those that were there: none is lost, repeated or
  -- overtaken. And it ends: with any greater number of turns it does the same.
  pub uart_try_tx-fifo :
      (ring : RingBuf) (d : D)
      → IsRing ring
      → let (ring', d') = uart_try_tx dev ring d in
        IsRing ring'
        × (sent d' ++ contents ring' ≡ sent d ++ contents ring)
        × ((n : ℕ) → ringbuf_size ≤ n → try_tx dev n ring d ≡ uart_try_tx dev ring d)
  unfolding uart_try_tx
  uart_try_tx-fifo ring d v =
      let (v', e) = try_tx-fifo ringbuf_size ring d v in
      let few = length-contents v in
      (v', e, λ n l. try_tx-fuel n ringbuf_size ring d v (omega arith) (omega arith))
