-- ===== src/Uart/Queue.antt =====
-- The ring buffer as a bounded queue.
use native.Mathlib.Decide.{ℕ_discrete}
use bare_metal_os.Base.{
  ℕ, zero, suc, ◌+◌, ◌-◌, ◌%◌, ◌<◌, ◌≡◌, refl, ap, ◌≢◌, inl, inr, Bool, true, false, Option, none,
  some, List, [], ◌∷◌, ◌++◌, arith, ltb, ◌==◌, if◌then◌else◌, Bool-cases, length, update,
}
use bare_metal_os.Uart.{ringbuf_size, ringbuf_push, ringbuf_pop, RingBuf}

-- Both positions lie in the buffer.
pub record IsRing (ring : RingBuf) : Type 0 where
  pub head : ring.head < ringbuf_size
  pub tail : ring.tail < ringbuf_size

-- How many characters are in the buffer.
abbrev pub fill : RingBuf → ℕ
fill ring = (ring.head + ringbuf_size - ring.tail) % ringbuf_size

-- The `n` characters from position `i` on.
unfoldable pub run : ℕ → ℕ → (ℕ → ℕ) → List ℕ
run zero i buffer = []
run (suc n) i buffer = buffer i ∷ run n ((i + 1) % ringbuf_size) buffer

-- The characters in the buffer, the oldest first.
unfoldable pub contents : RingBuf → List ℕ
contents ring = run (fill ring) ring.tail ring.buffer

-- A queue of up to 2047 characters.
pub enqueue : ℕ → List ℕ → Bool × List ℕ
enqueue c q = if ltb (length q) (ringbuf_size - 1) then (true, q ++ (c ∷ [])) else (false, q)

unfoldable pub dequeue : List ℕ → Option ℕ × List ℕ
dequeue [] = (none, [])
dequeue (c ∷ q) = (some c, q)

length-run : (n i : ℕ) (buffer : ℕ → ℕ) → length (run n i buffer) ≡ n
unfolding run
length-run zero i buffer = ground arith
length-run (suc n) i buffer = ground (arith, length-run n ((i + 1) % ringbuf_size) buffer)

-- A write behind the characters adds one.
run-update :
    (n i j c : ℕ) (buffer : ℕ → ℕ)
    → i < ringbuf_size
    → n < ringbuf_size
    → j ≡ (i + n) % ringbuf_size
    → run (suc n) i (update buffer j c) ≡ run n i buffer ++ (c ∷ [])
unfolding run
run-update zero i j c buffer small le e = ground arith
run-update (suc n) i j c buffer small le e =
    let rest =
      run-update n ((i + 1) % ringbuf_size) j c buffer (omega arith) (omega arith) (omega arith) in
    let ne : i ≢ j = omega arith in ground (arith, rest)

-- `ringbuf_push` keeps the positions in the buffer and adds the character to the queue, unless that
-- holds 2047 characters: then it fails and changes nothing.
pub ringbuf_push-enqueue :
    (c : ℕ) {ring : RingBuf}
    → IsRing ring
    → let (ok, ring') = ringbuf_push c ring in
      IsRing ring' × ((ok, contents ring') ≡ enqueue c (contents ring))
unfolding ringbuf_push contents enqueue
ringbuf_push-enqueue c {ring} v =
    let len = length-run (fill ring) ring.tail ring.buffer in
    elim (Bool-cases ((ring.head + 1) % ringbuf_size == ring.tail)) [
      | inl full ↦
          let t : ltb (length (run (fill ring) ring.tail ring.buffer)) (ringbuf_size - 1) ≡ false =
            rw len (ground (arith, v.head, v.tail)) in
          rw (full, t) (v, refl)
      | inr room ↦
          let t : ltb (length (run (fill ring) ring.tail ring.buffer)) (ringbuf_size - 1) ≡ true =
            rw len (ground (arith, v.head, v.tail)) in
          let more : ((ring.head + 1) % ringbuf_size + ringbuf_size - ring.tail) % ringbuf_size
              ≡ suc (fill ring) =
            ground (arith, v.head, v.tail) in
          rw (room, t, more)
            (
              record { head = omega arith; tail = v.tail },
              ap (λ q. (true, q))
                  (run-update (fill ring) ring.tail ring.head c ring.buffer v.tail (omega arith)
                    (omega (arith, v.head, v.tail))),
            )
    ]

-- `ringbuf_pop` keeps the positions in the buffer and takes the oldest character off the queue.
pub ringbuf_pop-dequeue :
    {ring : RingBuf}
    → IsRing ring
    → let (c, ring') = ringbuf_pop ring in
      IsRing ring' × ((c, contents ring') ≡ dequeue (contents ring))
unfolding ringbuf_pop contents dequeue run
ringbuf_pop-dequeue {ring} v = elim (ℕ_discrete ring.head ring.tail) [
  | yes e ↦
      let t : (ring.head == ring.tail) ≡ true = ground arith in
      let none' : fill ring ≡ 0 = omega (arith, v.tail) in rw (t, none') (v, refl)
  | no ne ↦
      let t : (ring.head == ring.tail) ≡ false = ground arith in
      let less : fill ring
          ≡ suc ((ring.head + ringbuf_size - (ring.tail + 1) % ringbuf_size) % ringbuf_size) =
        omega (arith, v.head, v.tail) in
      rw (t, less) (record { head = v.head; tail = omega arith }, refl)
]

-- The buffer never holds more than 2047 characters.
pub length-contents : {ring : RingBuf} → IsRing ring → length (contents ring) < ringbuf_size
unfolding contents
length-contents {ring} v = omega (arith, length-run (fill ring) ring.tail ring.buffer)
