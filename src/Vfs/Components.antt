-- ===== src/Vfs/Components.antt =====
-- src/vfs.c: the components of a path, and how the loops that cut it up find them.
use bare_metal_os.Base.{
  ℕ, ◌≤◌, ◌≡◌, refl, sym, ap, ◌∙◌, inl, inr, true, false, List, [], ◌∷◌, ◌++◌, arith, ◌==◌,
  if◌then◌else◌, Bool-cases, length,
}
use bare_metal_os.Vfs.Paths.{slash, is_absolute, skip_slashes, take_component}

-- A character in front of the components of what follows it.
abbrev pub push : ℕ → List (List ℕ) → List (List ℕ)
push c [] = (c ∷ []) ∷ []
push c (w ∷ ws) = (c ∷ w) ∷ ws

abbrev pub attach : ℕ → List ℕ → List (List ℕ) → List (List ℕ)
attach c [] ws = (c ∷ []) ∷ ws
attach c (d ∷ path) ws = if d == slash then (c ∷ []) ∷ ws else push c ws

-- The components of a path, by its characters.
unfoldable pub components : List ℕ → List (List ℕ)
components [] = []
components (c ∷ path) =
    let rest = components path in if c == slash then rest else attach c path rest

components-slash :
    (c : ℕ) (path : List ℕ) → (c == slash) ≡ true → components (c ∷ path) ≡ components path
unfolding components
components-slash c path e = rw e refl

components-attach :
    (c : ℕ) (path : List ℕ)
    → (c == slash) ≡ false
    → components (c ∷ path) ≡ attach c path (components path)
unfolding components
components-attach c path e = rw e refl

take_component-char :
    (c : ℕ) (path : List ℕ)
    → (c == slash) ≡ false
    → take_component (c ∷ path) ≡ (c ∷ (take_component path).0, (take_component path).1)
unfolding take_component
take_component-char c path e = rw e refl

take_component-slash :
    (c : ℕ) (path : List ℕ) → (c == slash) ≡ true → take_component (c ∷ path) ≡ ([], c ∷ path)
unfolding take_component
take_component-slash c path e = rw e refl

take_component-nil : take_component [] ≡ ([], [])
unfolding take_component
take_component-nil = refl

pub components-skip_slashes : (path : List ℕ) → components (skip_slashes path) ≡ components path
unfolding skip_slashes
components-skip_slashes [] = refl
components-skip_slashes (c ∷ path) = elim (Bool-cases (c == slash)) [
  | inl e ↦ rw e (components-skip_slashes path ∙ sym (components-slash c path e))
  | inr e ↦ rw e refl
]

-- The first component of a path that does not start with a slash, and those behind it.
pub components-take_component :
    (c : ℕ) (path : List ℕ)
    → (c == slash) ≡ false
    → components (c ∷ path)
      ≡ (take_component (c ∷ path)).0 ∷ components (take_component (c ∷ path)).1
components-take_component c [] e =
    components-attach c [] e
    ∙ sym (
        ap (λ r. r.0 ∷ components r.1)
          (take_component-char c [] e ∙ ap (λ r. (c ∷ r.0, r.1)) take_component-nil))
components-take_component c (d ∷ path) e =
    let both = ap (λ r. r.0 ∷ components r.1) (take_component-char c (d ∷ path) e) in
    elim (Bool-cases (d == slash)) [
      | inl f ↦
          components-attach c (d ∷ path) e
          ∙ rw f (sym (both ∙ ap (λ r. (c ∷ r.0) ∷ components r.1) (take_component-slash d path f)))
      | inr f ↦
          components-attach c (d ∷ path) e
          ∙ rw f (ap (push c) (components-take_component d path f) ∙ sym both)
    ]

take_component-length : (path : List ℕ) → length (take_component path).1 ≤ length path
unfolding take_component
take_component-length [] = omega arith
take_component-length (c ∷ path) = ground (arith, take_component-length path)

pub take_component-shorter :
    (c : ℕ) (path : List ℕ)
    → (c == slash) ≡ false
    → length (take_component (c ∷ path)).1 ≤ length path
unfolding take_component
take_component-shorter c path e = rw e (take_component-length path)

pub skip_slashes-length : (path : List ℕ) → length (skip_slashes path) ≤ length path
unfolding skip_slashes
skip_slashes-length [] = omega arith
skip_slashes-length (c ∷ path) = ground (arith, skip_slashes-length path)

pub skip_slashes-relative : (path : List ℕ) → is_absolute (skip_slashes path) ≡ false
unfolding skip_slashes
skip_slashes-relative [] = refl
skip_slashes-relative (c ∷ path) = ground (arith, skip_slashes-relative path)

push-append :
    (c : ℕ) (w : List ℕ) (ws all vs : List (List ℕ))
    → all ≡ w ∷ ws
    → push c (all ++ vs) ≡ push c all ++ vs
push-append c w ws all vs e = rw e refl

attach-later :
    (c d : ℕ) (path rest : List ℕ)
    → components (d ∷ path ++ (slash ∷ rest)) ≡ components (d ∷ path) ++ components rest
    → attach c (d ∷ path ++ (slash ∷ rest)) (components (d ∷ path ++ (slash ∷ rest)))
      ≡ attach c (d ∷ path) (components (d ∷ path)) ++ components rest
attach-later c d path rest later = elim (Bool-cases (d == slash)) [
  | inl f ↦ rw f (ap (λ ws. (c ∷ []) ∷ ws) later)
  | inr f ↦ rw f (
      ap (push c) later
      ∙ push-append c (take_component (d ∷ path)).0 (components (take_component (d ∷ path)).1)
          (components (d ∷ path)) (components rest) (components-take_component d path f))
]

pub components-append :
    (path rest : List ℕ) → components (path ++ (slash ∷ rest)) ≡ components path ++ components rest
unfolding components
components-append [] rest = refl
components-append (c ∷ []) rest = elim (Bool-cases (c == slash)) [
  | inl e ↦ rw e refl
  | inr e ↦ rw e refl
]
components-append (c ∷ d ∷ path) rest =
    let later = components-append (d ∷ path) rest in
    elim (Bool-cases (c == slash)) [
      | inl e ↦
          components-slash c (d ∷ path ++ (slash ∷ rest)) e
          ∙ later
          ∙ sym (ap (λ ws. ws ++ components rest) (components-slash c (d ∷ path) e))
      | inr e ↦
          components-attach c (d ∷ path ++ (slash ∷ rest)) e
          ∙ attach-later c d path rest later
          ∙ sym (ap (λ ws. ws ++ components rest) (components-attach c (d ∷ path) e))
    ]
