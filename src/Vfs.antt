-- ===== src/Vfs.antt =====
-- src/vfs.c: paths, mounts and the calls that follow a path.
pub mod Paths
pub mod Components
pub mod Walk
pub mod Resolve
pub mod Lookup
pub mod Chdir
mod Tests
use bare_metal_os.Base.{
  ℕ, zero, suc, ◌+◌, bit_and, Bool, true, false, not, ◌&&◌, Option, none, some, List, [], ◌∷◌, ◌++◌,
  ltb, ◌==◌, if◌then◌else◌, length, update,
}
use bare_metal_os.Kernel.{File, Kernel}
use bare_metal_os.Vfs.Paths.{
  dot, dot_dot, same_chars, is_empty_path, is_absolute, skip_slashes, take_component,
  get_parent_and_child,
}

-- `struct vnode`, but for its operations: `mount` is the root vnode of what is mounted on it, and 0
-- is NULL for both.
pub record Vnode : Type 0 where
  pub mount : ℕ
  pub parent : ℕ

-- The vnodes, the root of rootfs (0 before there is one), the current directory of the current
-- thread (0 for none), the number of mounts, the names of the registered file systems by index, and
-- the state of the file systems.
pub record Vfs (W : Type 0) : Type 0 where
  pub vnodes : ℕ → Vnode
  pub root : ℕ
  pub cwd : ℕ
  pub mounts : ℕ
  pub fs_list : List (List ℕ)
  pub system : W

-- `struct vnode_operations` on any vnode, and `setup_mount` by the index of the file system; `none`
-- is a result that is not 0.
pub record VnodeOperations (W : Type 0) : Type 0 where
  pub lookup : ℕ → List ℕ → W → Option ℕ × W
  pub create : ℕ → List ℕ → W → Option ℕ × W
  pub mkdir : ℕ → List ℕ → W → Option ℕ × W
  pub setup_mount : ℕ → W → ℕ × W

-- MAX_FS
abbrev pub max_fs : ℕ
max_fs = 16

-- `register_filesystem`: the index, or none for -1.
unfoldable pub register_filesystem : {W : Type 0} → List ℕ → Vfs W → Option ℕ × Vfs W
register_filesystem name s =
    if ltb (length s.fs_list) max_fs
    then (some (length s.fs_list), record s { fs_list = s.fs_list ++ (name ∷ []) })
    else (none, s)

-- The index of a name.
unfoldable pub find_filesystem : List ℕ → ℕ → List (List ℕ) → Option ℕ
find_filesystem name i [] = none
find_filesystem name i (n ∷ ns) =
    let rest = find_filesystem name (suc i) ns in if same_chars n name then some i else rest

-- while (node->mount) node = node->mount->root, on fuel: each mount is crossed once at most.
unfoldable pub cross : ℕ → (ℕ → Vnode) → ℕ → ℕ
cross zero vnodes node = node
cross (suc fuel) vnodes node =
    let next : ℕ = cross fuel vnodes (vnodes node).mount in
    if (vnodes node).mount == 0 then node else next

abbrev pub cross_mounts : {W : Type 0} → Vfs W → ℕ → ℕ
cross_mounts s node = cross (s.mounts + 1) s.vnodes node

-- node->parent = parent
abbrev pub set_parent : {W : Type 0} → ℕ → ℕ → Vfs W → Vfs W
set_parent node parent s = record s {
  vnodes = update s.vnodes node (record (s.vnodes node) { parent = parent });
}

module _ {W : Type 0} (v_ops : VnodeOperations W) where
  -- The operation for a name: the parent of what is found is set where it has none.
  unfoldable pub lookup_name : ℕ → List ℕ → Vfs W → Option ℕ × Vfs W
  lookup_name node name s =
      let (found, system) = v_ops.lookup node name s.system in
      let looked : Vfs W = record s { system = system } in
      elim found [
        | none ↦ (none, looked)
        | some next ↦
            let bare : Bool = ((s.vnodes next).parent == 0) && not (next == s.root) in
            (some next, if bare then set_parent next node looked else looked)
      ]

  -- The body of the loop of `vfs_lookup` for a component, from a vnode behind its mounts.
  unfoldable pub step_component : List ℕ → ℕ → Vfs W → Option ℕ × Vfs W
  step_component name node s =
      let parent : ℕ = (s.vnodes node).parent in
      if same_chars name dot
      then (some node, s)
      else if same_chars name dot_dot
      then (some (if parent == 0 then node else parent), s)
      else if is_empty_path name
      then (some node, s)
      else lookup_name node name s

  -- The loop of `vfs_lookup`, on fuel: each turn passes a character.
  unfoldable pub walk : ℕ → List ℕ → ℕ → Vfs W → Option ℕ × Vfs W
  walk zero path node s = (some node, s)
  walk (suc fuel) [] node s = (some node, s)
  walk (suc fuel) (c ∷ path) node s =
      let (name, rest) = take_component (c ∷ path) in
      let (next, s') = step_component name (cross_mounts s node) s in
      elim next [ none ↦ (none, s') | some n ↦ walk fuel (skip_slashes rest) n s' ]

  -- Where a path starts.
  abbrev pub start_of : List ℕ → Vfs W → ℕ
  start_of path s = if is_absolute path then s.root else if s.cwd == 0 then s.root else s.cwd

  -- `vfs_lookup`
  unfoldable pub vfs_lookup : List ℕ → Vfs W → Option ℕ × Vfs W
  vfs_lookup path s =
      let tail : List ℕ = if is_absolute path then skip_slashes path else path in
      let (found, s') = walk (length path) tail (start_of path s) s in
      if s.root == 0
      then (none, s)
      else (elim found [ none ↦ none | some node ↦ some (cross_mounts s' node) ], s')

  -- The directory of a path and the name in it, for `create` and `mkdir`.
  unfoldable pub make_in : (ℕ → List ℕ → W → Option ℕ × W) → List ℕ → Vfs W → Option ℕ × Vfs W
  make_in make path s =
      let (dirname, name) = get_parent_and_child path in
      let (dir, s1) = vfs_lookup dirname s in
      elim dir [
        | none ↦ (none, s1)
        | some node ↦
            let (made, system) = make node name s1.system in
            let s2 : Vfs W = record s1 { system = system } in
            elim made [ none ↦ (none, s2) | some new ↦ (some new, set_parent new node s2) ]
      ]

  -- The handle of a vnode that is opened; `open` of each file system returns 0.
  abbrev pub opened : ℕ → ℕ → File
  opened node flags = record { vnode = node; f_pos = 0; flags = flags; ref_count = 1 }

  -- `vfs_open`
  unfoldable pub vfs_open : List ℕ → ℕ → Vfs W → Option File × Vfs W
  vfs_open path flags s =
      let (found, s1) = vfs_lookup path s in
      let (made, s2) = make_in v_ops.create path s1 in
      elim found [
        | some node ↦ (some (opened node flags), s1)
        | none ↦
            if bit_and flags 0x40 == 0
            then (none, s1)
            else (elim made [ none ↦ none | some node ↦ some (opened node flags) ], s2)
      ]

  -- `vfs_mkdir`
  unfoldable pub vfs_mkdir : List ℕ → Vfs W → Option ℕ × Vfs W
  vfs_mkdir path s = make_in v_ops.mkdir path s

  -- `vfs_mount`: the result is whether it is 0.
  unfoldable pub vfs_mount : List ℕ → List ℕ → Vfs W → Bool × Vfs W
  vfs_mount target filesystem s = elim (find_filesystem filesystem 0 s.fs_list) [
    | none ↦ (false, s)
    | some fs ↦
        let (found, s1) = vfs_lookup target s in
        elim found [
          | none ↦ (false, s1)
          | some point ↦
              let (new_root, system) = v_ops.setup_mount fs s1.system in
              let parent : ℕ = if point == s1.root then new_root else (s1.vnodes point).parent in
              let s2 : Vfs W = set_parent new_root parent (record s1 { system = system }) in
              (
                true,
                record s2 {
                  vnodes = update s2.vnodes point (record (s2.vnodes point) { mount = new_root });
                  mounts = suc s2.mounts;
                },
              )
        ]
  ]
