-- ===== src/Vfs/Chdir.antt =====
-- src/vfs.c: a path of two parts, and the second part from the directory of the first.
use bare_metal_os.Base.{
  ℕ, zero, suc, ◌+◌, ◌<◌, ◌≡◌, refl, sym, ap, ◌∙◌, inl, inr, true, false, Option, none, some, List,
  [], ◌∷◌, ◌++◌, arith, ◌==◌, Bool-cases, Option-cases, not, ◌&&◌,
}
use mathlib.Core.Option.{some-injective}
use bare_metal_os.Vfs.Paths.{slash, dot, dot_dot, same_chars, is_empty_path, is_absolute}
use bare_metal_os.Vfs.{
  cross, cross_mounts, lookup_name, step_component, start_of, vfs_lookup, Vnode, Vfs,
  VnodeOperations,
}
use bare_metal_os.Vfs.Components.{components}
use bare_metal_os.Vfs.Walk.{follow, go, arrive, vfs_lookup-follow, vfs_lookup-append}
use bare_metal_os.Vfs.Resolve.{
  AreShort, IsForest, Crossed, Steps, lands, crosses, stays, goes_up, has_no_parent, is_missing,
  is_found, is_adopted,
}
use bare_metal_os.Vfs.Lookup.{
  cross_mounts-Crossed, step_component-Steps, Steps-IsForest, AreNames, components-AreNames,
}

-- Mounts are crossed once: behind them there is none.
Crossed-mount : {vnodes : ℕ → Vnode} {n m : ℕ} → Crossed vnodes n m → (vnodes m).mount ≡ 0
Crossed-mount (lands n e) = e
Crossed-mount (crosses n m ne c) = Crossed-mount c

cross-none :
    (fuel : ℕ) (vnodes : ℕ → Vnode) (n : ℕ) → (vnodes n).mount ≡ 0 → cross fuel vnodes n ≡ n
unfolding cross
cross-none zero vnodes n e = refl
cross-none (suc fuel) vnodes n e =
    let t : ((vnodes n).mount == 0) ≡ true = ground arith in rw t refl

cross_twice :
    {W : Type 0} (s : Vfs W) (node : ℕ)
    → IsForest s
    → cross_mounts s (cross_mounts s node) ≡ cross_mounts s node
cross_twice s node f =
    cross-none (s.mounts + 1) s.vnodes (cross_mounts s node)
      (Crossed-mount (cross_mounts-Crossed s node f))

-- The current directory of a result.
abbrev in_cwd : {W : Type 0} → ℕ → Option ℕ × Vfs W → Option ℕ × Vfs W
in_cwd c (found, s) = (found, record s { cwd = c })

module _ {W : Type 0} (v_ops : VnodeOperations W) where
  lookup_name-in_cwd :
      (c node : ℕ) (name : List ℕ) (s : Vfs W)
      → lookup_name v_ops node name (record s { cwd = c })
        ≡ in_cwd c (lookup_name v_ops node name s)
  unfolding lookup_name
  lookup_name-in_cwd c node name s = elim (Option-cases (v_ops.lookup node name s.system).0) [
    | inl miss ↦ rw (miss, lookup_name) refl
    | inr (next, hit) ↦ elim (Bool-cases (((s.vnodes next).parent == 0) && not (next == s.root))) [
      | inl bare ↦ rw (hit, lookup_name, bare) refl
      | inr kept ↦ rw (hit, lookup_name, kept) refl
    ]
  ]

  step_component-in_cwd :
      (c node : ℕ) (name : List ℕ) (s : Vfs W)
      → step_component v_ops name node (record s { cwd = c })
        ≡ in_cwd c (step_component v_ops name node s)
  unfolding step_component
  step_component-in_cwd c node name s = elim (Bool-cases (same_chars name dot)) [
    | inl e ↦ rw e refl
    | inr d ↦ elim (Bool-cases (same_chars name dot_dot)) [
      | inl e ↦ rw (d, e) refl
      | inr dd ↦ elim (Bool-cases (is_empty_path name)) [
        | inl e ↦ rw (d, dd, e) refl
        | inr given ↦ rw (d, dd, given) (lookup_name-in_cwd c node name s)
      ]
    ]
  ]

  go-in_cwd :
      (c : ℕ) (r : Option ℕ × Vfs W) (f : ℕ → Vfs W → Option ℕ × Vfs W)
      → ((n : ℕ) (s : Vfs W) → f n (record s { cwd = c }) ≡ in_cwd c (f n s))
      → go v_ops (in_cwd c r) f ≡ in_cwd c (go v_ops r f)
  go-in_cwd c (none, s) f e = refl
  go-in_cwd c (some n, s) f e = e n s

  follow-in_cwd :
      (ws : List (List ℕ)) (c node : ℕ) (s : Vfs W)
      → follow v_ops ws node (record s { cwd = c }) ≡ in_cwd c (follow v_ops ws node s)
  unfolding follow
  follow-in_cwd [] c node s = refl
  follow-in_cwd (w ∷ ws) c node s =
      ap (λ r. go v_ops r (λ n s'. follow v_ops ws n s'))
        (step_component-in_cwd c (cross_mounts s node) w s)
      ∙ go-in_cwd c (step_component v_ops w (cross_mounts s node) s) (λ n s'. follow v_ops ws n s')
          (λ n s'. follow-in_cwd ws c n s')

  arrive-in_cwd :
      (c : ℕ) (r : Option ℕ × Vfs W) → arrive v_ops (in_cwd c r) ≡ in_cwd c (arrive v_ops r)
  arrive-in_cwd c (none, s) = refl
  arrive-in_cwd c (some n, s) = refl

  -- From a vnode or from what is mounted on it.
  follow_crossed :
      (ws : List (List ℕ)) (node : ℕ) (s : Vfs W)
      → IsForest s
      → arrive v_ops (follow v_ops ws (cross_mounts s node) s)
        ≡ arrive v_ops (follow v_ops ws node s)
  unfolding follow
  follow_crossed [] node s f = ap (λ n. (some n, s)) (cross_twice s node f)
  follow_crossed (w ∷ ws) node s f =
      ap (λ n. arrive v_ops (go v_ops (step_component v_ops w n s) (λ n s'. follow v_ops ws n s')))
        (cross_twice s node f)

  Steps-root :
      {s : Vfs W} {name : List ℕ} {node : ℕ} {r : Option ℕ × Vfs W}
      → Steps v_ops s name node r
      → r.1.root ≡ s.root
  Steps-root (stays e) = refl
  Steps-root (goes_up e p) = refl
  Steps-root (has_no_parent e p) = refl
  Steps-root (is_missing system a b e) = refl
  Steps-root (is_found next system a b e p) = refl
  Steps-root (is_adopted next system a b e p ne) = refl

  go-kept :
      (s : Vfs W) (r : Option ℕ × Vfs W) (f : ℕ → Vfs W → Option ℕ × Vfs W)
      → IsForest r.1 × (r.1.root ≡ s.root)
      → ((n : ℕ) → IsForest (f n r.1).1 × ((f n r.1).1.root ≡ r.1.root))
      → IsForest (go v_ops r f).1 × ((go v_ops r f).1.root ≡ s.root)
  go-kept s (none, t) f kept later = kept
  go-kept s (some n, t) f (forest, same) later = ((later n).0, (later n).1 ∙ same)

  follow-kept :
      (ws : List (List ℕ)) (node : ℕ) (s : Vfs W)
      → AreNames ws
      → IsForest s
      → IsForest (follow v_ops ws node s).1 × ((follow v_ops ws node s).1.root ≡ s.root)
  unfolding follow
  follow-kept [] node s names f = (f, refl)
  follow-kept (w ∷ ws) node s (given, names) f =
      let r : Option ℕ × Vfs W = step_component v_ops w (cross_mounts s node) s in
      let step = step_component-Steps v_ops w (cross_mounts s node) s given in
      let forest = Steps-IsForest v_ops step f in
      go-kept s r (λ n s'. follow v_ops ws n s') (forest, Steps-root step)
        (λ n. follow-kept ws n r.1 names forest)

  start_in_cwd :
      (n : ℕ) (path : List ℕ) (s : Vfs W)
      → is_absolute path ≡ false
      → 0 < n
      → start_of v_ops path (record s { cwd = n }) ≡ n
  start_in_cwd n path s relative pos =
      let there : (n == 0) ≡ false = ground arith in rw (relative, there) refl

  -- What follows the first part, where that has led to `m`.
  rest_of :
      (rest : List ℕ) (m : ℕ) (s : Vfs W)
      → 0 < s.root
      → IsForest s
      → is_absolute rest ≡ false
      → 0 < cross_mounts s m
      → arrive v_ops (follow v_ops (components rest) m s)
        ≡ in_cwd s.cwd (vfs_lookup v_ops rest (record s { cwd = cross_mounts s m }))
  rest_of rest m s root forest relative pos =
      let n : ℕ = cross_mounts s m in
      let here : Vfs W = record s { cwd = n } in
      let x : Option ℕ × Vfs W = follow v_ops (components rest) n s in
      let found =
        vfs_lookup-follow v_ops rest here root
        ∙ ap (λ k. arrive v_ops (follow v_ops (components rest) k here))
            (start_in_cwd n rest s relative pos)
        ∙ ap (arrive v_ops) (follow-in_cwd (components rest) n n s)
        ∙ arrive-in_cwd n x in
      let own : follow v_ops (components rest) n s ≡ in_cwd s.cwd x =
        follow-in_cwd (components rest) s.cwd n s in
      sym (follow_crossed (components rest) m s forest)
      ∙ ap (arrive v_ops) own
      ∙ arrive-in_cwd s.cwd x
      ∙ sym (ap (in_cwd s.cwd) found)

  arrive-some :
      (r : Option ℕ × Vfs W) (n : ℕ) (s : Vfs W)
      → arrive v_ops r ≡ (some n, s)
      → (m : ℕ) × (r ≡ (some m, s)) × (cross_mounts s m ≡ n)
  arrive-some (none, t) n s e =
      let both : ◌≡◌ {A = Option ℕ} none (some n) = ap (λ p. p.0) e in absurd (ground arith)
  arrive-some (some m, t) n s e =
      let same : t ≡ s = ap (λ p. p.1) e in
      let at : cross_mounts t m ≡ n = some-injective _ _ (ap (λ p. p.0) e) in
      (m, ap (λ x. (some m, x)) same, ap (λ x. cross_mounts x m) (sym same) ∙ at)

-- Looking up two paths joined by a slash, the first not empty and the second not absolute, is to look
-- up the first, to go there, and to look up the second from there, with the current directory of
-- before at the end: where there is a root, mounts lead down, the components fit their buffer, and
-- the first path is found.
pub vfs_lookup-chdir :
    {W : Type 0} (v_ops : VnodeOperations W) (c : ℕ) (path rest : List ℕ) (s s' : Vfs W) (n : ℕ)
    → 0 < s.root
    → IsForest s
    → AreShort (components (c ∷ path))
    → AreShort (components rest)
    → is_absolute rest ≡ false
    → 0 < n
    → vfs_lookup v_ops (c ∷ path) s ≡ (some n, s')
    → vfs_lookup v_ops (c ∷ path ++ (slash ∷ rest)) s ≡ (
        let (found, t) = vfs_lookup v_ops rest (record s' { cwd = n }) in
        (found, record t { cwd = s.cwd }))
vfs_lookup-chdir {W} v_ops c path rest s s' n root forest short short' relative pos first =
    let ws = components (c ∷ path) in
    let start : ℕ = start_of v_ops (c ∷ path) s in
    let (m, led, at) =
      arrive-some v_ops (follow v_ops ws start s) n s'
        (sym (vfs_lookup-follow v_ops (c ∷ path) s root) ∙ first) in
    let (forest', root') = follow-kept v_ops ws start s (components-AreNames (c ∷ path)) forest in
    let now : s' ≡ (follow v_ops ws start s).1 = sym (ap (λ r. r.1) led) in
    let same_cwd : s'.cwd ≡ s.cwd =
      ap (λ t. t.cwd) now ∙ ap (λ r. r.1.cwd) (follow-in_cwd v_ops ws s.cwd start s) in
    let same_root : s'.root ≡ s.root = ap (λ t. t.root) now ∙ root' in
    let below : IsForest s' = rw now forest' in
    let later =
      rest_of v_ops rest m s' (omega (arith, same_root)) below relative (omega (arith, at)) in
    vfs_lookup-append v_ops c path rest s root
    ∙ ap (λ r. arrive v_ops (go v_ops r (λ k t. follow v_ops (components rest) k t))) led
    ∙ later
    ∙ ap (λ k. in_cwd s'.cwd (vfs_lookup v_ops rest (record s' { cwd = k }))) at
    ∙ ap (λ k. in_cwd k (vfs_lookup v_ops rest (record s' { cwd = n }))) same_cwd
