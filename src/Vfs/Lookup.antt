-- ===== src/Vfs/Lookup.antt =====
-- src/vfs.c: `vfs_lookup` resolves a path as the relation says.
use bare_metal_os.Base.{
  ℕ, zero, suc, ◌+◌, ◌<◌, ◌≡◌, refl, sym, ap, ◌∙◌, ◌≢◌, inl, inr, true, false, Option, none, some,
  List, [], ◌∷◌, arith, ◌==◌, Bool-cases,
}
use native.Mathlib.Decide.{ℕ_discrete}
use bare_metal_os.Vfs.Paths.{slash, dot, dot_dot, same_chars, is_empty_path}
use bare_metal_os.Vfs.{
  cross, cross_mounts, lookup_name, step_component, start_of, vfs_lookup, Vnode, Vfs,
  VnodeOperations,
}
use bare_metal_os.Vfs.Components.{push, attach, components}
use bare_metal_os.Vfs.Walk.{follow, go, arrive, vfs_lookup-follow}
use bare_metal_os.Vfs.Resolve.{
  AreShort, IsForest, Crossed, Starts, Steps, Resolves, lands, crosses, at_root, at_cwd, no_cwd,
  stays, goes_up, has_no_parent, is_missing, is_found, is_adopted, arrives, fails, continues,
}

same_chars_eq : (a b : List ℕ) → same_chars a b ≡ true → a ≡ b
unfolding same_chars
same_chars_eq [] [] e = refl
same_chars_eq [] (y ∷ ys) e = absurd (ground arith)
same_chars_eq (x ∷ xs) [] e = absurd (ground arith)
same_chars_eq (x ∷ xs) (y ∷ ys) e =
    let head : x ≡ y = ground arith in
    let rest : xs ≡ ys = same_chars_eq xs ys (ground arith) in rw (head, rest) refl

same_chars_refl : (a : List ℕ) → same_chars a a ≡ true
unfolding same_chars
same_chars_refl [] = refl
same_chars_refl (x ∷ xs) = ground (arith, same_chars_refl xs)

same_chars_ne : (a b : List ℕ) → same_chars a b ≡ false → a ≢ b
same_chars_ne a b e same =
    let both : true ≡ false = sym (same_chars_refl b) ∙ rw same at e in absurd (ground arith)

not_empty : (name : List ℕ) → name ≢ [] → is_empty_path name ≡ false
not_empty [] ne = absurd (ne refl)
not_empty (c ∷ name) ne = refl

cross-Crossed :
    (fuel : ℕ) (vnodes : ℕ → Vnode) (rank : ℕ → ℕ)
    → ((n : ℕ) → (vnodes n).mount ≢ 0 → rank (vnodes n).mount < rank n)
    → (node : ℕ) → rank node < fuel
    → Crossed vnodes node (cross fuel vnodes node)
unfolding cross
cross-Crossed zero vnodes rank down node l = absurd (omega arith)
cross-Crossed (suc fuel) vnodes rank down node l = elim (ℕ_discrete (vnodes node).mount 0) [
  | yes none' ↦ let t : ((vnodes node).mount == 0) ≡ true = ground arith in rw t (lands node none')
  | no ne ↦
      let t : ((vnodes node).mount == 0) ≡ false = ground arith in
      let less = down node ne in
      rw t
        (crosses node _ ne (cross-Crossed fuel vnodes rank down (vnodes node).mount (omega arith)))
]

pub cross_mounts-Crossed :
    {W : Type 0} (s : Vfs W) (node : ℕ) → IsForest s → Crossed s.vnodes node (cross_mounts s node)
cross_mounts-Crossed s node (rank, small, down) =
    cross-Crossed (s.mounts + 1) s.vnodes rank down node (omega (arith, small node))

abbrev pub AreNames : List (List ℕ) → Type 0
AreNames [] = Unit
AreNames (w ∷ ws) = (w ≢ []) × AreNames ws

start_of-Starts :
    {W : Type 0} (v_ops : VnodeOperations W) (path : List ℕ) (s : Vfs W)
    → Starts s path (start_of v_ops path s)
start_of-Starts v_ops [] s = elim (ℕ_discrete s.cwd 0) [
  | yes none' ↦ let t : (s.cwd == 0) ≡ true = ground arith in rw t (no_cwd [] refl none')
  | no ne ↦ let t : (s.cwd == 0) ≡ false = ground arith in rw t (at_cwd [] refl ne)
]
start_of-Starts v_ops (c ∷ path) s = elim (ℕ_discrete c 47) [
  | yes e ↦ rw e (at_root path)
  | no differ ↦
      let relative : (c == 47) ≡ false = ground arith in
      elim (ℕ_discrete s.cwd 0) [
        | yes none' ↦
            let t : (s.cwd == 0) ≡ true = ground arith in
            rw (relative, t) (no_cwd (c ∷ path) relative none')
        | no ne ↦
            let t : (s.cwd == 0) ≡ false = ground arith in
            rw (relative, t) (at_cwd (c ∷ path) relative ne)
      ]
]

module _ {W : Type 0} (v_ops : VnodeOperations W) where
  lookup_name-Steps :
      (name : List ℕ) (node : ℕ) (s : Vfs W)
      → name ≢ 46 ∷ []
      → name ≢ 46 ∷ 46 ∷ []
      → Steps v_ops s name node (lookup_name v_ops node name s)
  unfolding lookup_name
  lookup_name-Steps name node s no_dot no_dots = looked (v_ops.lookup node name s.system) refl
    where
      looked :
          (r : Option ℕ × W)
          → v_ops.lookup node name s.system ≡ r
          → Steps v_ops s name node (lookup_name v_ops node name s)
      looked (none, system) e =
          let (hit, now) : ((v_ops.lookup node name s.system).0 ≡ none)
              × ((v_ops.lookup node name s.system).1 ≡ system) =
            (ap (λ p. p.0) e, ap (λ p. p.1) e) in
          rw (hit, lookup_name, now) (is_missing system no_dot no_dots e)
      looked (some next, system) e =
          let (hit, now) : ((v_ops.lookup node name s.system).0 ≡ some next)
              × ((v_ops.lookup node name s.system).1 ≡ system) =
            (ap (λ p. p.0) e, ap (λ p. p.1) e) in
          elim (ℕ_discrete (s.vnodes next).parent 0) [
            | no ne ↦
                let t : ((s.vnodes next).parent == 0) ≡ false = ground arith in
                rw (hit, lookup_name, now, t) (is_found next system no_dot no_dots e (inl ne))
            | yes bare ↦
                let t : ((s.vnodes next).parent == 0) ≡ true = ground arith in
                elim (ℕ_discrete next s.root) [
                  | yes root ↦
                      let u : (next == s.root) ≡ true = ground arith in
                      rw (hit, lookup_name, now, t, u)
                        (is_found next system no_dot no_dots e (inr root))
                  | no ne ↦
                      let u : (next == s.root) ≡ false = ground arith in
                      rw (hit, lookup_name, now, t, u)
                        (is_adopted next system no_dot no_dots e bare ne)
                ]
          ]

  pub step_component-Steps :
      (name : List ℕ) (node : ℕ) (s : Vfs W)
      → name ≢ []
      → Steps v_ops s name node (step_component v_ops name node s)
  unfolding step_component
  step_component-Steps name node s some_name = elim (Bool-cases (same_chars name dot)) [
    | inl e ↦ rw e (stays (same_chars_eq name dot e))
    | inr d ↦ elim (Bool-cases (same_chars name dot_dot)) [
      | inl e ↦
          let named = same_chars_eq name dot_dot e in
          elim (ℕ_discrete (s.vnodes node).parent 0) [
            | yes top ↦
                let t : ((s.vnodes node).parent == 0) ≡ true = ground arith in
                rw (d, e, t) (has_no_parent named top)
            | no ne ↦
                let t : ((s.vnodes node).parent == 0) ≡ false = ground arith in
                rw (d, e, t) (goes_up named ne)
          ]
      | inr dd ↦
          let given : is_empty_path name ≡ false = not_empty name some_name in
          rw (d, dd, given)
            (lookup_name-Steps name node s (same_chars_ne name dot d)
              (same_chars_ne name dot_dot dd))
    ]
  ]

  pub Steps-IsForest :
      {s : Vfs W} {name : List ℕ} {node : ℕ} {r : Option ℕ × Vfs W}
      → Steps v_ops s name node r
      → IsForest s
      → IsForest r.1
  Steps-IsForest (stays e) f = f
  Steps-IsForest (goes_up e p) f = f
  Steps-IsForest (has_no_parent e p) f = f
  Steps-IsForest (is_missing system a b e) f = f
  Steps-IsForest (is_found next system a b e p) f = f
  Steps-IsForest (is_adopted next system a b e p ne) (rank, small, down) =
      (rank, small, λ n. ground (arith, down n))

  resolve_step :
      {s : Vfs W} {node m : ℕ} {w : List ℕ} (ws : List (List ℕ)) (r : Option ℕ × Vfs W)
      → Crossed s.vnodes node m
      → Steps v_ops s w m r
      → ((n : ℕ) → Resolves v_ops ws n r.1 (arrive v_ops (follow v_ops ws n r.1)))
      → Resolves v_ops (w ∷ ws) node s (arrive v_ops (go v_ops r (λ n s'. follow v_ops ws n s')))
  resolve_step ws (none, s') c step later = fails c step
  resolve_step ws (some n, s') c step later = continues c step (later n)

  follow-Resolves :
      (ws : List (List ℕ)) (node : ℕ) (s : Vfs W)
      → AreNames ws
      → IsForest s
      → Resolves v_ops ws node s (arrive v_ops (follow v_ops ws node s))
  unfolding follow
  follow-Resolves [] node s names f = arrives (cross_mounts-Crossed s node f)
  follow-Resolves (w ∷ ws) node s (some_name, names) f =
      let m : ℕ = cross_mounts s node in
      let step = step_component-Steps w m s some_name in
      resolve_step ws (step_component v_ops w m s) (cross_mounts-Crossed s node f) step
        (λ n. follow-Resolves ws n (step_component v_ops w m s).1 names (Steps-IsForest step f))

push-AreNames : (c : ℕ) (ws : List (List ℕ)) → AreNames ws → AreNames (push c ws)
push-AreNames c [] names = (λ e. absurd (ground arith), tt)
push-AreNames c (w ∷ ws) (given, names) = (λ e. absurd (ground arith), names)

attach-AreNames :
    (c : ℕ) (path : List ℕ) (ws : List (List ℕ)) → AreNames ws → AreNames (attach c path ws)
attach-AreNames c [] ws names = (λ e. absurd (ground arith), names)
attach-AreNames c (d ∷ path) ws names = elim (Bool-cases (d == slash)) [
  | inl e ↦ rw e ((λ x. absurd (ground arith), names))
  | inr e ↦ rw e (push-AreNames c ws names)
]

pub components-AreNames : (path : List ℕ) → AreNames (components path)
unfolding components
components-AreNames [] = tt
components-AreNames (c ∷ path) = elim (Bool-cases (c == slash)) [
  | inl e ↦ rw e (components-AreNames path)
  | inr e ↦ rw e (attach-AreNames c path (components path) (components-AreNames path))
]

-- Once there is a root, where mounts lead down and each component fits its buffer, `vfs_lookup`
-- resolves a path: from where the path starts, its components one after the other, with the mounts
-- crossed before each and at the end, up to the first that is not found. Leading, repeated and
-- trailing slashes do not matter, and the turns of the loops are enough.
pub vfs_lookup-Resolves :
    {W : Type 0} (v_ops : VnodeOperations W) (path : List ℕ) (s : Vfs W)
    → 0 < s.root
    → IsForest s
    → AreShort (components path)
    → (start : ℕ) × Starts s path start
      × Resolves v_ops (components path) start s (vfs_lookup v_ops path s)
vfs_lookup-Resolves v_ops path s h forest short =
    let start : ℕ = start_of v_ops path s in
    let resolved =
      follow-Resolves v_ops (components path) start s (components-AreNames path) forest in
    (start, start_of-Starts v_ops path s, rw (vfs_lookup-follow v_ops path s h) resolved)
