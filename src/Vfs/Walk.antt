-- ===== src/Vfs/Walk.antt =====
-- src/vfs.c: a path is followed component by component, and along two parts one after the other.
use bare_metal_os.Base.{
  ℕ, zero, suc, ◌≤◌, ◌<◌, ◌≡◌, refl, sym, ap, ◌∙◌, inl, inr, false, Option, none, some, List, [],
  ◌∷◌, ◌++◌, arith, ◌==◌, if◌then◌else◌, Bool-cases, length,
}
use bare_metal_os.Vfs.Paths.{slash, is_absolute, skip_slashes, take_component}
use bare_metal_os.Vfs.{
  cross_mounts, step_component, walk, start_of, vfs_lookup, Vfs, VnodeOperations,
}
use bare_metal_os.Vfs.Components.{
  components, components-skip_slashes, components-take_component, take_component-shorter,
  skip_slashes-length, skip_slashes-relative, components-append,
}

module _ {W : Type 0} (v_ops : VnodeOperations W) where
  -- A list of components followed from a vnode, the mounts crossed before each.
  unfoldable pub follow : List (List ℕ) → ℕ → Vfs W → Option ℕ × Vfs W
  follow [] node s = (some node, s)
  follow (w ∷ ws) node s =
      let (next, s') = step_component v_ops w (cross_mounts s node) s in
      elim next [ none ↦ (none, s') | some n ↦ follow ws n s' ]

  -- A step, and what follows it where it finds a vnode.
  abbrev pub go : Option ℕ × Vfs W → (ℕ → Vfs W → Option ℕ × Vfs W) → Option ℕ × Vfs W
  go (next, s) k = elim next [ none ↦ (none, s) | some n ↦ k n s ]

  go-same :
      (r : Option ℕ × Vfs W) (f g : ℕ → Vfs W → Option ℕ × Vfs W)
      → ((n : ℕ) (s : Vfs W) → f n s ≡ g n s)
      → go r f ≡ go r g
  go-same (none, s) f g e = refl
  go-same (some n, s) f g e = e n s

  walk-follow :
      (n : ℕ) (path : List ℕ) (node : ℕ) (s : Vfs W)
      → length path ≤ n
      → is_absolute path ≡ false
      → walk v_ops n path node s ≡ follow (components path) node s
  unfolding walk follow components
  walk-follow zero [] node s h r = refl
  walk-follow zero (c ∷ path) node s h r = absurd (omega arith)
  walk-follow (suc n) [] node s h r = refl
  walk-follow (suc n) (c ∷ path) node s h r =
      let rest : List ℕ = (take_component (c ∷ path)).1 in
      let short : length (skip_slashes rest) ≤ n =
        omega (arith, skip_slashes-length rest, take_component-shorter c path r) in
      let later = λ (m : ℕ) (s' : Vfs W).
        walk-follow n (skip_slashes rest) m s' short (skip_slashes-relative rest)
        ∙ ap (λ ws. follow ws m s') (components-skip_slashes rest) in
      go-same (step_component v_ops (take_component (c ∷ path)).0 (cross_mounts s node) s)
        (λ m s'. walk v_ops n (skip_slashes rest) m s') (λ m s'. follow (components rest) m s')
        later
      ∙ ap (λ ws. follow ws node s) (sym (components-take_component c path r))

  -- What `vfs_lookup` makes of the vnode that is reached.
  abbrev pub arrive : Option ℕ × Vfs W → Option ℕ × Vfs W
  arrive (found, s) = (elim found [ none ↦ none | some node ↦ some (cross_mounts s node) ], s)

  tail_of : List ℕ → List ℕ
  tail_of path = if is_absolute path then skip_slashes path else path

  walk-tail_of :
      (path : List ℕ) (node : ℕ) (s : Vfs W)
      → walk v_ops (length path) (tail_of path) node s ≡ follow (components path) node s
  unfolding tail_of
  walk-tail_of path node s = elim (Bool-cases (is_absolute path)) [
    | inl e ↦ rw e (
        walk-follow (length path) (skip_slashes path) node s (skip_slashes-length path)
          (skip_slashes-relative path)
        ∙ ap (λ ws. follow ws node s) (components-skip_slashes path))
    | inr e ↦ rw e (walk-follow (length path) path node s (omega arith) e)
  ]

  vfs_lookup-walk :
      (path : List ℕ) (s : Vfs W)
      → 0 < s.root
      → vfs_lookup v_ops path s
        ≡ arrive (walk v_ops (length path) (tail_of path) (start_of v_ops path s) s)
  unfolding vfs_lookup tail_of
  vfs_lookup-walk path s h =
      let ready : (s.root == 0) ≡ false = ground arith in rw (vfs_lookup, ready) refl

-- Once there is a root, the lookup of a path is to follow its components one after the other from
-- the root or the current directory, with as much fuel as the path has characters, and to cross the
-- mounts at the end: leading, repeated and trailing slashes do not matter.
pub vfs_lookup-follow :
    {W : Type 0} (v_ops : VnodeOperations W) (path : List ℕ) (s : Vfs W)
    → 0 < s.root
    → vfs_lookup v_ops path s
      ≡ arrive v_ops (follow v_ops (components path) (start_of v_ops path s) s)
vfs_lookup-follow v_ops path s h =
    vfs_lookup-walk v_ops path s h
    ∙ ap (arrive v_ops) (walk-tail_of v_ops path (start_of v_ops path s) s)

module _ {W : Type 0} (v_ops : VnodeOperations W) where
  go-go :
      (r : Option ℕ × Vfs W) (f g : ℕ → Vfs W → Option ℕ × Vfs W)
      → go v_ops (go v_ops r f) g ≡ go v_ops r (λ n s. go v_ops (f n s) g)
  go-go (none, s) f g = refl
  go-go (some n, s) f g = refl

  follow-append :
      (ws vs : List (List ℕ)) (node : ℕ) (s : Vfs W)
      → follow v_ops (ws ++ vs) node s
        ≡ go v_ops (follow v_ops ws node s) (λ n s'. follow v_ops vs n s')
  unfolding follow
  follow-append [] vs node s = refl
  follow-append (w ∷ ws) vs node s =
      let r : Option ℕ × Vfs W = step_component v_ops w (cross_mounts s node) s in
      go-same v_ops r (λ n s'. follow v_ops (ws ++ vs) n s')
        (λ n s'. go v_ops (follow v_ops ws n s') (λ n s'. follow v_ops vs n s'))
        (λ n s'. follow-append ws vs n s')
      ∙ sym (go-go r (λ n s'. follow v_ops ws n s') (λ n s'. follow v_ops vs n s'))

-- The lookup of two paths joined by a slash, the first not empty, is to follow the components of the
-- first, from where it leads those of the second, and to cross the mounts at the end.
pub vfs_lookup-append :
    {W : Type 0} (v_ops : VnodeOperations W) (c : ℕ) (path rest : List ℕ) (s : Vfs W)
    → 0 < s.root
    → vfs_lookup v_ops (c ∷ path ++ (slash ∷ rest)) s
      ≡ arrive v_ops (
          go v_ops
            (follow v_ops (components (c ∷ path)) (start_of v_ops (c ∷ path) s) s)
            (λ n s'. follow v_ops (components rest) n s'))
vfs_lookup-append v_ops c path rest s h =
    vfs_lookup-follow v_ops (c ∷ path ++ (slash ∷ rest)) s h
    ∙ ap (arrive v_ops) (
        ap (λ ws. follow v_ops ws (start_of v_ops (c ∷ path) s) s)
          (components-append (c ∷ path) rest)
        ∙ follow-append v_ops (components (c ∷ path)) (components rest)
            (start_of v_ops (c ∷ path) s) s)
