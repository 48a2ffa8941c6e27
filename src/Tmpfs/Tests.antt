-- ===== src/Tmpfs/Tests.antt =====
-- A tree with the root directory only, and an empty file.
use bare_metal_os.Base.{
  ℕ, ◌≤◌, ◌<◌, ◌≡◌, refl, ◌≢◌, ◌⊎◌, none, some, List, [], ◌∷◌, arith, take, replicate,
}
use bare_metal_os.Tmpfs.{
  content_of, tmpfs_read, tmpfs_write, same_name, lookup_entry, tmpfs_lookup, free_entry, new_vnode,
  add_child, tmpfs_create, TmpfsVnode, Tmpfs, fs_dir, fs_file,
}
use bare_metal_os.Tmpfs.Content.{Fits, write-read}
use bare_metal_os.Tmpfs.Directory.{IsTree, add_child-lookup, add_child-long_name}

abbrev root : Tmpfs
root = record { nodes = λ v. new_vnode fs_dir []; next = 1 }

root-IsTree : IsTree root
unfolding IsTree
root-IsTree d i v l e = absurd (ground arith)

no_child : (name : List ℕ) → tmpfs_lookup 0 name root ≡ none
unfolding tmpfs_lookup lookup_entry
no_child name = refl

abbrev ab : List ℕ
ab = 97 ∷ 98 ∷ []

creates : tmpfs_lookup 0 ab (tmpfs_create 0 ab root).1 ≡ some 1
unfolding tmpfs_create add_child free_entry tmpfs_lookup lookup_entry same_name
creates = refl

abbrev empty : TmpfsVnode
empty = new_vnode fs_file ab

abbrev zeros : ℕ → ℕ
zeros = λ i. 0

add_child-lookup_example :
    let (v, fs') = add_child fs_file 0 ab root in
    ((v ≡ none) × (fs' ≡ root) × ((i : ℕ) → i < 16 → (root.nodes 0).entry i ≢ none))
    ⊎ ((v ≡ some 1)
        × (tmpfs_lookup 0 ab fs' ≡ some 1)
        × ((other : List ℕ) → other ≢ ab → tmpfs_lookup 0 other fs' ≡ tmpfs_lookup 0 other root)
        × IsTree fs')
add_child-lookup_example =
    add_child-lookup fs_file 0 ab root-IsTree (omega arith) refl (omega arith) (no_child ab)

abbrev long_name : List ℕ
long_name = replicate 40 97

add_child-long_name_example :
    let (v, fs') = add_child fs_file 0 long_name root in
    (v ≡ some 1)
    × ((fs'.nodes 1).name ≡ take 31 long_name)
    × ((j : ℕ) × ((root.nodes 0).entry j ≡ none) × ((fs'.nodes 0).entry j ≡ some 1))
    × (tmpfs_lookup 0 long_name fs' ≡ none)
add_child-long_name_example =
    add_child-long_name fs_file 0 long_name root 3 root-IsTree (omega arith) refl (omega arith) refl
      (omega arith) (no_child long_name)

write-read_example :
    (inode' : TmpfsVnode) × (tmpfs_write zeros empty 10 ab ≡ some (2, 12, inode'))
    × Fits inode'
    × (tmpfs_read inode' 10 2 ≡ some (ab, 12))
    × ((i : ℕ)
        → (i < 10) ⊎ (12 ≤ i)
        → content_of zeros inode'.content i ≡ content_of zeros empty.content i)
write-read_example = write-read zeros empty 10 ab refl (omega arith) (omega arith) (omega arith)
