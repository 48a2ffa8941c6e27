-- ===== src/Strings/Copy.antt =====
-- What the copying functions write.
use native.Mathlib.Decide.{dec_lt, ℕ_discrete}
use bare_metal_os.Base.{
  ℕ, zero, suc, ◌+◌, ◌-◌, ◌%◌, ◌≤◌, ◌<◌, ◌≡◌, refl, ◌∙◌, ◌≢◌, ◌⊎◌, Bool, true, false, ◌&&◌, arith,
  ltb, leb, ◌==◌, if◌then◌else◌, update,
}
use bare_metal_os.Strings.{Memory, memset, memcpy, copy_string, strncpy}

-- Whether an address is one of `n` from `d` on.
abbrev pub covers : ℕ → ℕ → ℕ → Bool
covers d n x = leb d x && ltb x (d + n)

-- `memset` sets the `n` bytes from `s` on, and no other.
pub memset_lem :
    (s c n : ℕ) (mem : Memory) (x : ℕ)
    → memset s c n mem x ≡ (if covers s n x then c % 256 else mem x)
unfolding memset
memset_lem s c zero mem x = ground arith
memset_lem s c (suc n) mem x = ground (arith, memset_lem (s + 1) c n (update mem s (c % 256)) x)

-- Two ranges of `n` bytes that do not meet.
abbrev pub Apart : ℕ → ℕ → ℕ → Type 0
Apart d s n = (d + n ≤ s) ⊎ (s + n ≤ d)

-- One byte more in front.
copied :
    (d s n : ℕ) (mem : Memory) (x : ℕ)
    → Apart d s (suc n)
    → (if covers (d + 1) n x
        then update mem d (mem s) (s + 1 + (x - (d + 1)))
        else update mem d (mem s) x)
      ≡ (if covers d (suc n) x then mem (s + (x - d)) else mem x)
copied d s n mem x apart = elim (ℕ_discrete x d) [
  | yes e ↦ let z : s + (d - d) ≡ s = omega arith in rw e (rw z (ground arith))
  | no ne ↦ elim (dec_lt d x) [
    | yes after ↦ let z : s + 1 + (x - (d + 1)) ≡ s + (x - d) = omega arith in rw z (ground arith)
    | no before ↦ ground arith
  ]
]

-- Between ranges that do not meet, `memcpy` copies the `n` bytes and writes no other.
pub memcpy_lem :
    (d s n : ℕ) (mem : Memory) (x : ℕ)
    → Apart d s n
    → memcpy d s n mem x ≡ (if covers d n x then mem (s + (x - d)) else mem x)
unfolding memcpy
memcpy_lem d s zero mem x apart = ground arith
memcpy_lem d s (suc n) mem x apart =
    let mem' = update mem d (mem s) in
    let rest = memcpy_lem (d + 1) (s + 1) n mem' x (omega arith) in
    rw rest (copied d s n mem x apart)

-- The string at `s` has `k` characters.
pub record HasLength (mem : Memory) (s k : ℕ) : Type 0 where
  pub characters : (i : ℕ) → i < k → mem (s + i) ≢ 0
  pub ends : mem (s + k) ≡ 0

-- Where the copy of a string stops, and what it has written.
copy_string_lem :
    (d s n k : ℕ) (mem : Memory)
    → HasLength mem s k
    → k < n
    → Apart d s n
    → let (d', left, mem') = copy_string d s n mem in
      (d' ≡ d + k + 1)
      × (left ≡ n - k)
      × ((x : ℕ) → mem' x ≡ (if covers d (k + 1) x then mem (s + (x - d)) else mem x))
unfolding copy_string
copy_string_lem d s zero k mem str less apart = absurd (omega arith)
copy_string_lem d s (suc n) zero mem str less apart =
    let first : mem (s + 0) ≡ 0 = str.ends in
    let z : s + 0 ≡ s = omega arith in
    let nul : mem s ≡ 0 = rw z at first in
    let e : (mem s == 0) ≡ true = ground arith in rw e (omega arith, omega arith, λ x. last x)
  where
    last :
        (x : ℕ) → update mem d (mem s) x ≡ (if covers d (0 + 1) x then mem (s + (x - d)) else mem x)
    last x = elim (ℕ_discrete x d) [
      | yes e ↦ let z : s + (d - d) ≡ s = omega arith in rw e (rw z (ground arith))
      | no ne ↦ ground arith
    ]
copy_string_lem d s (suc n) (suc k) mem str less apart =
    let z : s + 0 ≡ s = omega arith in
    let first = str.characters 0 (omega arith) in
    let e : (mem s == 0) ≡ false = ground (arith, rw z at first) in
    let mem' = update mem d (mem s) in
    let same : (i : ℕ) → i ≤ k → mem' (s + 1 + i) ≡ mem (s + suc i) =
      λ i l. let z' : s + 1 + i ≡ s + suc i = omega arith in rw z' (ground arith) in
    let str' : HasLength mem' (s + 1) k = record {
      characters = λ i l. rw (same i (omega arith)) (str.characters (suc i) (omega arith));
      ends = same k (omega arith) ∙ str.ends;
    } in
    let (d', left, bytes) =
      copy_string_lem (d + 1) (s + 1) n k mem' str' (omega arith) (omega arith) in
    let more : suc k + 1 ≡ suc (k + 1) = omega arith in
    rw (e, more)
      (d' ∙ omega arith, left ∙ omega arith, λ x. bytes x ∙ copied d s (k + 1) mem x (omega arith))

-- `strncpy` of a string shorter than `n`, between ranges that do not meet: the characters, then
-- zeros, `n` + 1 bytes together, and no other byte is written.
pub strncpy_lem :
    (d s n k : ℕ) (mem : Memory) (x : ℕ)
    → HasLength mem s k
    → k < n
    → Apart d s (n + 1)
    → strncpy d s n mem x
      ≡ (if covers d k x then mem (s + (x - d)) else if covers d (n + 1) x then 0 else mem x)
unfolding strncpy copy_string
strncpy_lem d s n k mem x str less apart =
    let (d', left, mem') = copy_string_lem d s n k mem str less (omega arith) in
    rw
      (
        memset_lem (copy_string d s n mem).0 0 (copy_string d s n mem).1 (copy_string d s n mem).2
            x,
        d',
        left,
        mem' x,
      )
      (elim (ℕ_discrete x (d + k)) [
        | no ne ↦ ground arith
        | yes e ↦
            let z : s + (d + k - d) ≡ s + k = omega arith in rw e (rw z (ground (arith, str.ends)))
      ])

-- So `strncpy` of a string shorter than `n` clears the byte behind the `n` bytes it was given.
pub strncpy-overrun :
    (d s n k : ℕ) (mem : Memory)
    → HasLength mem s k
    → k < n
    → Apart d s (n + 1)
    → strncpy d s n mem (d + n) ≡ 0
strncpy-overrun d s n k mem str less apart =
    strncpy_lem d s n k mem (d + n) str less apart ∙ ground arith

-- `strncpy` of a string of `n` characters or more, between ranges that do not meet, is `memcpy`: it
-- writes no zero.
pub strncpy-memcpy :
    (d s n : ℕ) (mem : Memory)
    → ((i : ℕ) → i < n → mem (s + i) ≢ 0)
    → Apart d s n
    → strncpy d s n mem ≡ memcpy d s n mem
unfolding strncpy copy_string memcpy memset
strncpy-memcpy d s zero mem long apart = refl
strncpy-memcpy d s (suc n) mem long apart =
    let z : s + 0 ≡ s = omega arith in
    let first = long 0 (omega arith) in
    let e : (mem s == 0) ≡ false = ground (arith, rw z at first) in
    let same : (i : ℕ) → i < n → update mem d (mem s) (s + 1 + i) ≢ 0 = λ i l.
      let z' : s + 1 + i ≡ s + suc i = omega arith in
      let other : update mem d (mem s) (s + suc i) ≡ mem (s + suc i) = ground arith in
      rw (z', other) (long (suc i) (omega arith)) in
    rw e (strncpy-memcpy (d + 1) (s + 1) n (update mem d (mem s)) same (omega arith))
