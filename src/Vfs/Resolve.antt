-- ===== src/Vfs/Resolve.antt =====
-- src/vfs.c: the resolution of a path as a relation, apart from the code that computes it.
use bare_metal_os.Base.{
  ℕ, ◌≤◌, ◌<◌, ◌≡◌, ◌≢◌, ◌⊎◌, false, Option, none, some, List, [], ◌∷◌, length, update,
}
use bare_metal_os.Vfs.Paths.{is_absolute}
use bare_metal_os.Vfs.{Vnode, Vfs, VnodeOperations}

-- Every component fits the buffer of `vfs_lookup`, which has PATH_MAX = 255 characters, the NUL
-- included.
abbrev pub AreShort : List (List ℕ) → Type 0
AreShort [] = Unit
AreShort (w ∷ ws) = (length w < 255) × AreShort ws

-- Mounts lead down: no chain of them is longer than there are mounts.
abbrev pub IsForest : {W : Type 0} → Vfs W → Type 0
IsForest s =
    (rank : ℕ → ℕ) × ((n : ℕ) → rank n ≤ s.mounts)
    × ((n : ℕ) → (s.vnodes n).mount ≢ 0 → rank (s.vnodes n).mount < rank n)

-- The root of what is mounted on a vnode, of what is mounted on that, and so on.
pub data Crossed (vnodes : ℕ → Vnode) : ℕ → ℕ → Type 0 where
  lands : (n : ℕ) → (vnodes n).mount ≡ 0 → Crossed vnodes n n
  crosses :
      (n m : ℕ) → (vnodes n).mount ≢ 0 → Crossed vnodes (vnodes n).mount m → Crossed vnodes n m

-- Where a path starts: an absolute one at the root, a relative one at the current directory, if
-- there is one.
pub data Starts {W : Type 0} (s : Vfs W) : List ℕ → ℕ → Type 0 where
  at_root : (path : List ℕ) → Starts s (47 ∷ path) s.root
  at_cwd : (path : List ℕ) → is_absolute path ≡ false → s.cwd ≢ 0 → Starts s path s.cwd
  no_cwd : (path : List ℕ) → is_absolute path ≡ false → s.cwd ≡ 0 → Starts s path s.root

module _ {W : Type 0} (v_ops : VnodeOperations W) where
  -- What a component leads to from a vnode on which nothing is mounted: "." and ".." are those of
  -- the vnode, any other name is looked up by its operation, and a vnode without a parent that is
  -- not the root gets the vnode it was found in as its parent.
  pub data Steps (s : Vfs W) (name : List ℕ) (node : ℕ) : Option ℕ × Vfs W → Type 0 where
    stays : name ≡ 46 ∷ [] → Steps s name node (some node, s)
    goes_up :
        name ≡ 46 ∷ 46 ∷ []
        → (s.vnodes node).parent ≢ 0
        → Steps s name node (some (s.vnodes node).parent, s)
    has_no_parent :
        name ≡ 46 ∷ 46 ∷ [] → (s.vnodes node).parent ≡ 0 → Steps s name node (some node, s)
    is_missing :
        (system : W)
        → name ≢ 46 ∷ []
        → name ≢ 46 ∷ 46 ∷ []
        → v_ops.lookup node name s.system ≡ (none, system)
        → Steps s name node (none, record s { system = system })
    is_found :
        (next : ℕ) (system : W)
        → name ≢ 46 ∷ []
        → name ≢ 46 ∷ 46 ∷ []
        → v_ops.lookup node name s.system ≡ (some next, system)
        → ((s.vnodes next).parent ≢ 0) ⊎ (next ≡ s.root)
        → Steps s name node (some next, record s { system = system })
    is_adopted :
        (next : ℕ) (system : W)
        → name ≢ 46 ∷ []
        → name ≢ 46 ∷ 46 ∷ []
        → v_ops.lookup node name s.system ≡ (some next, system)
        → (s.vnodes next).parent ≡ 0
        → next ≢ s.root
        → Steps s name node (
          some next,
          record s {
            vnodes = update s.vnodes next (record (s.vnodes next) { parent = node });
            system = system;
          },
        )

  -- The components one after the other, the mounts crossed before each and at the end.
  pub data Resolves : List (List ℕ) → ℕ → Vfs W → Option ℕ × Vfs W → Type 0 where
    arrives : {s : Vfs W} {node m : ℕ} → Crossed s.vnodes node m → Resolves [] node s (some m, s)
    fails :
        {s after : Vfs W} {node m : ℕ} {w : List ℕ} {ws : List (List ℕ)}
        → Crossed s.vnodes node m
        → Steps s w m (none, after)
        → Resolves (w ∷ ws) node s (none, after)
    continues :
        {s after : Vfs W} {node m next : ℕ} {w : List ℕ} {ws : List (List ℕ)} {r : Option ℕ × Vfs W}
        → Crossed s.vnodes node m
        → Steps s w m (some next, after)
        → Resolves ws next after r
        → Resolves (w ∷ ws) node s r
