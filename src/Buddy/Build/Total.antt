-- ===== src/Buddy/Build/Total.antt =====
-- `buddy_init` ends, and frees exactly the pages that are not reserved.
use native.Mathlib.Decide.{ℕ_discrete, dec_lt}
use mathlib.Core.Path.{subst}
use bare_metal_os.Base.{
  ℕ, zero, suc, ◌+◌, ◌-◌, ◌≤◌, ◌<◌, ◌≡◌, refl, ◌∙◌, ◌≢◌, inl, inr, true, false, ◌&&◌, some, arith,
  ltb, leb, if◌then◌else◌, Bool-cases, update,
}
use bare_metal_os.Buddy.{same_state, Frame, Buddy, reserved, alloc_page_tail}
use bare_metal_os.Buddy.InHand.{
  Outside, IsConsistent, Good-frame, Good-tail, IsFree, InHand-empty, Good, InHand,
}
use bare_metal_os.Buddy.Build.{
  clear_frame, clear_frames, count_free, carve, set_order_zero, build, cleared, init,
}
use bare_metal_os.Buddy.Build.Carve.{carve-Carved, Carved}

clear_frames-at :
    (n i : ℕ) (f : ℕ → Frame) (p : ℕ)
    → clear_frames n i f p ≡ (if leb i p && ltb p (i + n) then clear_frame (f p) else f p)
unfolding clear_frames
clear_frames-at zero i f p = ground arith
clear_frames-at (suc n) i f p =
    ground (arith, clear_frames-at n (i + 1) (update f i (clear_frame (f i))) p)

-- The run that is counted lies in the pool and has no reserved page.
count_free-le : (n j : ℕ) (f : ℕ → Frame) → count_free n j f ≤ n
unfolding count_free
count_free-le zero j f = omega arith
count_free-le (suc n) j f = ground (arith, count_free-le n (j + 1) f)

count_free_not-reserved :
    (n j : ℕ) (f : ℕ → Frame) (p : ℕ) → j ≤ p → p < j + count_free n j f → (f p).state ≢ reserved
unfolding count_free
count_free_not-reserved zero j f p l u = absurd (omega arith)
count_free_not-reserved (suc n) j f p l u = ground (arith, count_free_not-reserved n (j + 1) f p)

count_free_pos :
    (n j : ℕ) (f : ℕ → Frame)
    → 0 < n
    → same_state (f j).state reserved ≡ false
    → 0 < count_free n j f
unfolding count_free
count_free_pos zero j f pos free = absurd (omega arith)
count_free_pos (suc n) j f pos free = ground arith

-- From page `idx` on, exactly the pages that are not reserved are free; what is before is as it was.
pub record Built (idx : ℕ) (s s' : Buddy) : Type 0 where
  pub consistent : IsConsistent s'
  pub total : s'.total_page ≡ s.total_page
  pub before : (p : ℕ) → p < idx → s'.frames p ≡ s.frames p
  pub kept :
      (p : ℕ)
      → idx ≤ p
      → p < s.total_page
      → (s.frames p).state ≡ reserved
      → (s'.frames p).state ≡ reserved
  pub free :
      (p : ℕ)
      → idx ≤ p
      → p < s.total_page
      → (s.frames p).state ≢ reserved
      → IsFree (s'.frames p).state

set_order_zero-InHand :
    (idx : ℕ) {s : Buddy}
    → (s.frames idx).state ≡ reserved
    → InHand idx s.total_page s
    → InHand (idx + 1) s.total_page (set_order_zero idx s)
set_order_zero-InHand idx {s} e held = record {
  good = λ p pin out. good p pin out;
  listed = λ p k small. ground (arith, held.listed p k small);
}
  where
    good :
        (p : ℕ)
        → p < s.total_page
        → Outside (idx + 1) s.total_page p
        → Good (set_order_zero idx s).frames s.total_page (idx + 1) p
    good p pin out = elim (ℕ_discrete p idx) [
      | yes here ↦ Good-tail (inr (inr (rw here (ground (arith, e)))))
      | no there ↦
          let old = held.good p pin (ground arith) in
          Good-frame (ground arith) (λ h j l u. ground (arith, old.apart h))
            (λ h l. ground (arith, old.apart h)) old
    ]

build-reserved :
    (fuel idx : ℕ) (s : Buddy)
    → idx < s.total_page
    → (s.frames idx).state ≡ reserved
    → build (suc fuel) idx s ≡ build fuel (idx + 1) (set_order_zero idx s)
unfolding build
build-reserved fuel idx s l e =
    let t : ltb idx s.total_page ≡ true = ground arith in
    let r : same_state (s.frames idx).state reserved ≡ true = ground arith in rw (t, r, build)

build-run :
    (fuel idx idx' : ℕ) (s s' : Buddy)
    → idx < s.total_page
    → same_state (s.frames idx).state reserved ≡ false
    → let n = count_free (s.total_page - idx) idx s.frames in
      carve n idx n s ≡ some (idx', s') → build (suc fuel) idx s ≡ build fuel idx' s'
unfolding build
build-run fuel idx idx' s s' l r e =
    let t : ltb idx s.total_page ≡ true = ground arith in rw (t, r, e, build)

Built-reserved :
    (idx : ℕ) (s : Buddy) {s' : Buddy}
    → (s.frames idx).state ≡ reserved
    → Built (idx + 1) (set_order_zero idx s) s'
    → Built idx s s'
Built-reserved idx s e b = record {
  consistent = b.consistent;
  total = b.total;
  before = λ p l. ground (arith, b.before p);
  kept = λ p l u r. ground (arith, b.before p, b.kept p);
  free = λ p l u r. ground (arith, b.free p);
}

Built-run :
    {idx idx' n : ℕ} {s s1 s' : Buddy}
    → ((p : ℕ) → idx ≤ p → p < idx + n → (s.frames p).state ≢ reserved)
    → Carved idx n s.total_page s idx' s1
    → Built idx' s1 s'
    → Built idx s s'
Built-run run c b = record {
  consistent = b.consistent;
  total = b.total ∙ c.total;
  before = λ p l. ground (arith, b.before p, c.same p, c.front);
  kept = λ p l u r. ground (arith, b.kept p, c.same p, c.front, c.total, run p);
  free = λ p l u r. ground (arith, b.free p, b.before p, c.same p, c.free p, c.front, c.total);
}

build-Built :
    (fuel idx : ℕ) (s : Buddy)
    → idx ≤ s.total_page
    → s.total_page < fuel + idx
    → InHand idx s.total_page s
    → (s' : Buddy) × (build fuel idx s ≡ some s') × Built idx s s'
unfolding build
build-Built zero idx s le enough held = absurd (omega arith)
build-Built (suc fuel) idx s le enough held = elim (dec_lt idx s.total_page) [
  | no done ↦
      let e : s.total_page ≡ idx = omega arith in
      let t : ltb idx s.total_page ≡ false = ground arith in
      (
        s,
        rw (t, build),
        record {
          consistent = InHand-empty {x = idx} (subst (λ h. InHand idx h s) e held);
          total = refl;
          before = λ p l. refl;
          kept = λ p l u r. absurd (omega arith);
          free = λ p l u r. absurd (omega arith);
        },
      )
  | yes more ↦ elim (Bool-cases (same_state (s.frames idx).state reserved)) [
    | inl r ↦
        let e : (s.frames idx).state ≡ reserved = ground arith in
        let (s', e', b) =
          build-Built fuel (idx + 1) (set_order_zero idx s) (omega arith) (omega arith)
            (set_order_zero-InHand idx e held) in
        (s', build-reserved fuel idx s more e ∙ e', Built-reserved idx s e b)
    | inr r ↦
        let n = count_free (s.total_page - idx) idx s.frames in
        let small = count_free-le (s.total_page - idx) idx s.frames in
        let pos = count_free_pos (s.total_page - idx) idx s.frames (omega arith) r in
        let (idx', s1, e, c) =
          carve-Carved n idx n s.total_page s (omega arith) (omega arith) (omega arith) held in
        let (s', e', b) =
          build-Built fuel idx' s1 (omega (arith, c.front, c.total))
            (omega (arith, c.front, c.total)) (rw c.total c.in_hand) in
        (
          s',
          build-run fuel idx idx' s s1 more r e ∙ e',
          Built-run (count_free_not-reserved (s.total_page - idx) idx s.frames) c b,
        )
  ]
]

cleared-InHand : (s : Buddy) → InHand 0 s.total_page (cleared s)
unfolding cleared
cleared-InHand s = record {
  good = λ p pin out. absurd (ground arith);
  listed = λ p k small. ground arith;
}

cleared-reserved :
    (s : Buddy) (p : ℕ)
    → p < s.total_page
    → ((cleared s).frames p).state
      ≡ (if same_state (s.frames p).state reserved then reserved else alloc_page_tail)
unfolding cleared clear_frame
cleared-reserved s p l = ground (arith, clear_frames-at s.total_page 0 s.frames p)

built :
    (s : Buddy)
    → (r : Buddy) × (build (s.total_page + 1) 0 (cleared s) ≡ some r) × Built 0 (cleared s) r
unfolding cleared
built s =
    build-Built (s.total_page + 1) 0 (cleared s) (omega arith) (omega arith) (cleared-InHand s)

-- The state after `buddy_init`: the reserved pages of the pool are still reserved, all others free.
pub record Ready (s s' : Buddy) : Type 0 where
  pub consistent : IsConsistent s'
  pub ready : s'.ready ≡ true
  pub total : s'.total_page ≡ s.total_page
  pub kept :
      (p : ℕ) → p < s.total_page → (s.frames p).state ≡ reserved → (s'.frames p).state ≡ reserved
  pub free : (p : ℕ) → p < s.total_page → (s.frames p).state ≢ reserved → IsFree (s'.frames p).state

Built-Ready : (s r : Buddy) → Built 0 (cleared s) r → Ready s (record r { ready = true })
unfolding cleared
Built-Ready s r b = record {
  consistent = record { good = b.consistent.good; listed = b.consistent.listed };
  ready = refl;
  total = b.total;
  kept = λ p l h. b.kept p (omega arith) l (ground (arith, cleared-reserved s p l));
  free = λ p l h. b.free p (omega arith) l (ground (arith, cleared-reserved s p l));
}

-- `buddy_init` ends, whatever the frame array and the lists held before, in a consistent state in
-- which the reserved pages of the pool are still reserved and all its other pages are free.
pub init_lem : (s : Buddy) → (s' : Buddy) × (init s ≡ some s') × Ready s s'
unfolding init
init_lem s = let (r, e, b) = built s in (record r { ready = true }, rw (e, init), Built-Ready s r b)
