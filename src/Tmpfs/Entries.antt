-- ===== src/Tmpfs/Entries.antt =====
-- The entries of a directory: what the search for a free one and the search for a name find.
use native.Mathlib.Decide.{ℕ_discrete}
use mathlib.Core.Option.{some-injective}
use bare_metal_os.Base.{
  ℕ, zero, suc, ◌+◌, ◌≤◌, ◌<◌, ◌≡◌, refl, sym, ap, ◌∙◌, ◌≢◌, inl, inr, true, false, Option, none,
  some, List, [], ◌∷◌, arith, Bool-cases, Option-cases, update,
}
use bare_metal_os.Tmpfs.{same_name, lookup_entry, free_entry}

pub same_name_refl : (a : List ℕ) → same_name a a ≡ true
unfolding same_name
same_name_refl [] = refl
same_name_refl (x ∷ xs) = ground (arith, same_name_refl xs)

pub same_name_eq : (a b : List ℕ) → same_name a b ≡ true → a ≡ b
unfolding same_name
same_name_eq [] [] e = refl
same_name_eq [] (y ∷ ys) e = absurd (ground arith)
same_name_eq (x ∷ xs) [] e = absurd (ground arith)
same_name_eq (x ∷ xs) (y ∷ ys) e =
    let head : x ≡ y = ground arith in
    let rest : xs ≡ ys = same_name_eq xs ys (ground arith) in rw (head, rest) refl

pub free_entry-some :
    (n i : ℕ) (entry : ℕ → Option ℕ) {j : ℕ}
    → free_entry n i entry ≡ some j
    → (i ≤ j) × (j < i + n) × (entry j ≡ none)
unfolding free_entry
free_entry-some zero i entry e = absurd (ground arith)
free_entry-some (suc n) i entry {j} e = elim (Option-cases (entry i)) [
  | inl null ↦
      let here : ◌≡◌ {A = Option ℕ} (some i) (some j) = rw (null, free_entry) at e in
      let at : i ≡ j = some-injective _ _ here in (omega arith, omega arith, rw (← at) null)
  | inr (v, is) ↦
      let (lo, hi, null) = free_entry-some n (i + 1) entry (rw (is, free_entry) at e) in
      (omega arith, omega arith, null)
]

-- The search ends without an entry only if all of them are taken.
pub free_entry-none :
    (n i j : ℕ) (entry : ℕ → Option ℕ)
    → free_entry n i entry ≡ none
    → i ≤ j
    → j < i + n
    → entry j ≢ none
unfolding free_entry
free_entry-none zero i j entry e lo hi null = absurd (omega arith)
free_entry-none (suc n) i j entry e lo hi null = elim (Option-cases (entry i)) [
  | inl here ↦
      let found : ◌≡◌ {A = Option ℕ} (some i) none = rw (here, free_entry) at e in
      absurd (ground arith)
  | inr (v, is) ↦ elim (ℕ_discrete i j) [
    | yes same ↦
        let both : ◌≡◌ {A = Option ℕ} (some v) none = sym is ∙ ap entry same ∙ null in
        absurd (ground arith)
    | no ne ↦
        free_entry-none n (i + 1) j entry (rw (is, free_entry) at e) (omega arith) (omega arith)
          null
  ]
]

-- The entries before the new one stay; a new entry that has another name is passed over.
module _ (names names' : ℕ → List ℕ) (entry : ℕ → Option ℕ) (v : ℕ)
    (kept : (i u : ℕ) → entry i ≡ some u → names' u ≡ names u) (name : List ℕ) where
  pub lookup_new :
      (n i j : ℕ)
      → i ≤ j
      → j < i + n
      → entry j ≡ none
      → lookup_entry n i names entry name ≡ none
      → same_name (names' v) name ≡ true
      → lookup_entry n i names' (update entry j (some v)) name ≡ some v
  unfolding lookup_entry
  lookup_new zero i j lo hi null miss same = absurd (omega arith)
  lookup_new (suc n) i j lo hi null miss same = elim (ℕ_discrete i j) [
    | yes e ↦
        let here : update entry j (some v) i ≡ some v = ground arith in
        rw (here, lookup_entry, same) refl
    | no ne ↦
        let there : update entry j (some v) i ≡ entry i = ground arith in
        elim (Option-cases (entry i)) [
          | inl null' ↦
              rw (there, null', lookup_entry)
                (lookup_new n (i + 1) j (omega arith) (omega arith) null
                  (rw (null', lookup_entry) at miss) same)
          | inr (w, is) ↦ elim (Bool-cases (same_name (names w) name)) [
            | inl hit ↦
                let found : ◌≡◌ {A = Option ℕ} (some w) none = rw (is, lookup_entry, hit) at miss in
                absurd (ground arith)
            | inr differ ↦
                rw (there, is, lookup_entry, kept i w is, differ)
                  (lookup_new n (i + 1) j (omega arith) (omega arith) null
                    (rw (is, lookup_entry, differ) at miss) same)
          ]
        ]
  ]

  pub lookup_other :
      (n i j : ℕ)
      → entry j ≡ none
      → same_name (names' v) name ≡ false
      → lookup_entry n i names' (update entry j (some v)) name ≡ lookup_entry n i names entry name
  unfolding lookup_entry
  lookup_other zero i j null differ = refl
  lookup_other (suc n) i j null differ =
      let rest = lookup_other n (i + 1) j null differ in
      elim (ℕ_discrete i j) [
        | yes e ↦
            let here : update entry j (some v) i ≡ some v = ground arith in
            let null' : entry i ≡ none = rw e null in rw (here, null', lookup_entry, differ) rest
        | no ne ↦
            let there : update entry j (some v) i ≡ entry i = ground arith in
            elim (Option-cases (entry i)) [
              | inl null' ↦ rw (there, null', lookup_entry) rest
              | inr (w, is) ↦ elim (Bool-cases (same_name (names w) name)) [
                | inl hit ↦ rw (there, is, lookup_entry, kept i w is, hit) refl
                | inr other ↦ rw (there, is, lookup_entry, kept i w is, other) rest
              ]
            ]
      ]
