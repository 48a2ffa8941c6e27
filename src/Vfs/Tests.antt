-- ===== src/Vfs/Tests.antt =====
-- A root with one directory, in which one file is found; a file system is mounted on the directory.
use bare_metal_os.Base.{
  ℕ, ◌≡◌, refl, ◌&&◌, Option, none, some, List, [], ◌∷◌, arith, ◌==◌, if◌then◌else◌,
}
use bare_metal_os.Vfs.Paths.{
  same_chars, skip_slashes, take_component, strip_tail, strip_slashes, split_last,
  get_parent_and_child,
}
use bare_metal_os.Vfs.{
  find_filesystem, cross, lookup_name, step_component, walk, vfs_lookup, vfs_mount, Vfs,
  VnodeOperations,
}
use bare_metal_os.Vfs.Components.{components}
use bare_metal_os.Vfs.Resolve.{AreShort, IsForest, Starts, Resolves}
use bare_metal_os.Vfs.Lookup.{vfs_lookup-Resolves}
use bare_metal_os.Vfs.Chdir.{vfs_lookup-chdir}

-- "d" in vnode 1 is vnode 2, "f" in vnode 2 is vnode 3 and in vnode 9 vnode 4.
abbrev found_in : ℕ → List ℕ → Option ℕ
found_in node name =
    if (node == 1) && same_chars name (100 ∷ [])
    then some 2
    else if (node == 2) && same_chars name (102 ∷ [])
    then some 3
    else if (node == 9) && same_chars name (102 ∷ [])
    then some 4
    else none

abbrev fixed_ops : VnodeOperations ℕ
fixed_ops = record {
  lookup = λ node name w. (found_in node name, w);
  create = λ node name w. (none, w);
  mkdir = λ node name w. (none, w);
  setup_mount = λ fs w. (9, w);
}

abbrev rooted : Vfs ℕ
rooted = record {
  vnodes = λ _. record { mount = 0; parent = 0 };
  root = 1;
  cwd = 0;
  mounts = 0;
  fs_list = (116 ∷ []) ∷ [];
  system = 0;
}

-- "//d/f/" and "/d"
abbrev path_f : List ℕ
path_f = 47 ∷ 47 ∷ 100 ∷ 47 ∷ 102 ∷ 47 ∷ []

abbrev path_d : List ℕ
path_d = 47 ∷ 100 ∷ []

file_found : (vfs_lookup fixed_ops path_f rooted).0 ≡ some 3
unfolding vfs_lookup walk step_component lookup_name take_component skip_slashes same_chars cross
file_found = refl

mounted : (vfs_lookup fixed_ops path_f (vfs_mount fixed_ops path_d (116 ∷ []) rooted).1).0 ≡ some 4
unfolding vfs_lookup walk step_component lookup_name take_component skip_slashes same_chars cross
    vfs_mount find_filesystem
mounted = refl

split_path : get_parent_and_child path_f ≡ (47 ∷ 47 ∷ 100 ∷ [], 102 ∷ [])
unfolding get_parent_and_child split_last strip_slashes strip_tail
split_path = refl

-- The root of the second file system is vnode 9, mounted on "d".
abbrev with_mount : Vfs ℕ
with_mount = record rooted {
  vnodes =
      λ n. if n == 2 then record { mount = 9; parent = 1 } else record { mount = 0; parent = 0 };
  mounts = 1;
}

with_mount-IsForest : IsForest with_mount
with_mount-IsForest = (λ n. if n == 2 then 1 else 0, λ n. ground arith, λ n ne. ground arith)

short_f : AreShort (components path_f)
unfolding components
short_f = (omega arith, (omega arith, tt))

short_d : AreShort (components path_d)
unfolding components
short_d = (omega arith, tt)

short_rest : AreShort (components (102 ∷ []))
unfolding components
short_rest = (omega arith, tt)

directory_found : vfs_lookup fixed_ops path_d with_mount ≡ (some 9, with_mount)
unfolding vfs_lookup walk step_component lookup_name take_component skip_slashes same_chars cross
directory_found = refl

vfs_lookup-Resolves_example :
    (start : ℕ) × Starts with_mount path_f start
    × Resolves fixed_ops
        (components path_f)
        start
        with_mount
        (vfs_lookup fixed_ops path_f with_mount)
vfs_lookup-Resolves_example =
    vfs_lookup-Resolves fixed_ops path_f with_mount (omega arith) with_mount-IsForest short_f

vfs_lookup-chdir_example : vfs_lookup fixed_ops (47 ∷ 100 ∷ 47 ∷ 102 ∷ []) with_mount ≡ (
    let (found, t) = vfs_lookup fixed_ops (102 ∷ []) (record with_mount { cwd = 9 }) in
    (found, record t { cwd = 0 }))
vfs_lookup-chdir_example =
    vfs_lookup-chdir fixed_ops 47 (100 ∷ []) (102 ∷ []) with_mount with_mount 9 (omega arith)
      with_mount-IsForest short_d short_rest refl (omega arith) directory_found
