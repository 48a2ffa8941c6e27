-- ===== src/Tmpfs/Directory.antt =====
-- Directories: what is created is found again.
use native.Mathlib.Decide.{ℕ_discrete}
use mathlib.Core.Option.{some-injective}
use bare_metal_os.Base.{
  ℕ, ◌+◌, ◌-◌, ◌≤◌, ◌<◌, ◌≡◌, refl, sym, ap, ◌∙◌, ◌≢◌, ◌⊎◌, inl, inr, true, false, Option, none,
  some, List, arith, Bool-cases, Option-cases, length, take, update,
}
use bare_metal_os.Tmpfs.Content.{take-all, length-take}
use bare_metal_os.Tmpfs.{
  max_file_name, max_dir_entry, is_file, same_name, lookup_entry, tmpfs_lookup, free_entry,
  new_vnode, add_child, FsnodeType, Tmpfs, fs_dir,
}
use bare_metal_os.Tmpfs.Entries.{
  same_name_refl, same_name_eq, free_entry-some, free_entry-none, lookup_new, lookup_other,
}

-- Every entry of a directory is a node that there is.
unfoldable pub IsTree : Tmpfs → Type 0
IsTree fs = (d i v : ℕ) → d < fs.next → (fs.nodes d).entry i ≡ some v → v < fs.next

-- A new node in entry `j` of the directory.
module _ (kind : FsnodeType) (dir : ℕ) (name : List ℕ) (fs : Tmpfs) (j : ℕ) (tree : IsTree fs)
    (inside : dir < fs.next) (is_dir : (fs.nodes dir).kind ≡ fs_dir)
    (free : free_entry max_dir_entry 0 (fs.nodes dir).entry ≡ some j) where
  entries : ℕ → Option ℕ
  entries = update (fs.nodes dir).entry j (some fs.next)

  added : Tmpfs
  added = record {
    nodes =
        update (update fs.nodes fs.next (new_vnode kind name)) dir
          (record (fs.nodes dir) { entry = entries });
    next = fs.next + 1;
  }

  names' : ℕ → List ℕ
  names' v = (added.nodes v).name

  at_dir : added.nodes dir ≡ record (fs.nodes dir) { entry = entries }
  unfolding added
  at_dir = ground arith

  at_new : added.nodes fs.next ≡ new_vnode kind name
  unfolding added
  at_new = ground arith

  at_other : (v : ℕ) → v ≢ dir → v ≢ fs.next → added.nodes v ≡ fs.nodes v
  unfolding added
  at_other v ne ne' = ground arith

  kept_name : (i u : ℕ) → (fs.nodes dir).entry i ≡ some u → names' u ≡ (fs.nodes u).name
  unfolding names' IsTree
  kept_name i u e = elim (ℕ_discrete u dir) [
    | yes here ↦ rw here (ap (λ t. t.name) at_dir)
    | no ne ↦ ap (λ t. t.name) (at_other u ne (omega (arith, tree dir i u inside e)))
  ]

  lookup-added :
      (other : List ℕ)
      → tmpfs_lookup dir other added ≡ lookup_entry max_dir_entry 0 names' entries other
  unfolding tmpfs_lookup names'
  lookup-added other = rw (at_dir, is_dir) refl

  lookup-before :
      (other : List ℕ)
      → tmpfs_lookup dir other fs
        ≡ lookup_entry max_dir_entry 0 (λ v. (fs.nodes v).name) (fs.nodes dir).entry other
  unfolding tmpfs_lookup
  lookup-before other = rw is_dir refl

  -- The name is cut to 31 characters.
  added_name : names' fs.next ≡ take (max_file_name - 1) name
  unfolding names'
  added_name = ap (λ t. t.name) at_new

  found :
      length name < max_file_name
      → tmpfs_lookup dir name fs ≡ none
      → tmpfs_lookup dir name added ≡ some fs.next
  unfolding entries
  found short miss =
      let (lo, hi, null) = free_entry-some max_dir_entry 0 (fs.nodes dir).entry free in
      let same : same_name (names' fs.next) name ≡ true =
        rw (added_name, take-all (max_file_name - 1) name (omega arith)) (same_name_refl name) in
      lookup-added name
      ∙ lookup_new (λ v. (fs.nodes v).name) names' (fs.nodes dir).entry fs.next kept_name name
          max_dir_entry 0 j lo hi null (sym (lookup-before name) ∙ miss) same

  others :
      (other : List ℕ)
      → other ≢ take (max_file_name - 1) name
      → tmpfs_lookup dir other added ≡ tmpfs_lookup dir other fs
  unfolding entries
  others other ne =
      let (lo, hi, null) = free_entry-some max_dir_entry 0 (fs.nodes dir).entry free in
      let differ : same_name (names' fs.next) other ≡ false =
        elim (Bool-cases (same_name (names' fs.next) other)) [
          | inr no' ↦ no'
          | inl same ↦ absurd (ne (sym (same_name_eq (names' fs.next) other same) ∙ added_name))
        ] in
      lookup-added other
      ∙ lookup_other (λ v. (fs.nodes v).name) names' (fs.nodes dir).entry fs.next kept_name other
          max_dir_entry 0 j null differ
      ∙ sym (lookup-before other)

  added-IsTree : IsTree added
  unfolding IsTree
  added-IsTree d i v l e = elim (ℕ_discrete d dir) [
    | yes here ↦
        let e' : entries i ≡ some v = sym (ap (λ t. t.entry i) at_dir) ∙ rw here at e in
        elim (ℕ_discrete i j) [
          | yes same ↦
              let new : entries i ≡ some fs.next = unfold entries in ground arith in
              let is : fs.next ≡ v = some-injective _ _ (sym new ∙ e') in
              unfold added in omega (arith, is)
          | no ne ↦
              let old : entries i ≡ (fs.nodes dir).entry i = unfold entries in ground arith in
              let small = tree dir i v inside (sym old ∙ e') in unfold added in omega (arith, small)
        ]
    | no ne ↦ elim (ℕ_discrete d fs.next) [
      | yes here ↦
          let e' : none ≡ some v = sym (ap (λ t. t.entry i) at_new) ∙ rw here at e in
          absurd (ground arith)
      | no ne' ↦
          let small =
            tree d i v (unfold added in omega (arith, l, ne'))
              (sym (ap (λ t. t.entry i) (at_other d ne ne')) ∙ e) in
          unfold added in omega (arith, small)
    ]
  ]

  add : add_child kind dir name fs ≡ (some fs.next, added)
  unfolding add_child added entries
  add = let t : is_file (fs.nodes dir).kind ≡ false = rw is_dir refl in rw (t, add_child, free) refl

-- `tmpfs_create` or `tmpfs_mkdir` in a directory that has no child of the name, whose length is at
-- most 31: it fails only if all 16 entries are taken, and then changes nothing; else the new node is
-- found under its name, every other name finds what it found before, and the tree is well formed
-- again.
pub add_child-lookup :
    (kind : FsnodeType) (dir : ℕ) (name : List ℕ) {fs : Tmpfs}
    → IsTree fs
    → dir < fs.next
    → (fs.nodes dir).kind ≡ fs_dir
    → length name < max_file_name
    → tmpfs_lookup dir name fs ≡ none
    → let (v, fs') = add_child kind dir name fs in
      ((v ≡ none) × (fs' ≡ fs) × ((i : ℕ) → i < 16 → (fs.nodes dir).entry i ≢ none))
      ⊎ ((v ≡ some fs.next)
          × (tmpfs_lookup dir name fs' ≡ some fs.next)
          × ((other : List ℕ)
              → other ≢ name
              → tmpfs_lookup dir other fs' ≡ tmpfs_lookup dir other fs)
          × IsTree fs')
unfolding add_child
add_child-lookup kind dir name {fs} tree inside is_dir short miss =
    elim (Option-cases (free_entry max_dir_entry 0 (fs.nodes dir).entry)) [
      | inl full ↦
          let taken = λ (i : ℕ) (l : i < 16).
            free_entry-none max_dir_entry 0 i (fs.nodes dir).entry full (omega arith) l in
          rw (is_dir, full) (inl (refl, refl, taken))
      | inr (j, free) ↦
          let cut : take (max_file_name - 1) name ≡ name =
            take-all (max_file_name - 1) name (omega arith) in
          rw (add kind dir name fs j tree inside is_dir free) (
            inr (
              refl,
              found kind dir name fs j tree inside is_dir free short miss,
              λ other ne. others kind dir name fs j tree inside is_dir free other (rw cut ne),
              added-IsTree kind dir name fs j tree inside is_dir free,
            ))
    ]

-- In a directory with an entry to spare, `tmpfs_create` and `tmpfs_mkdir` accept a name of 32
-- characters or more that is not there: they make a node, in an entry that was free, whose name is
-- the first 31 characters, and the name is not found after that either.
pub add_child-long_name :
    (kind : FsnodeType) (dir : ℕ) (name : List ℕ) (fs : Tmpfs) (i : ℕ)
    → IsTree fs
    → dir < fs.next
    → (fs.nodes dir).kind ≡ fs_dir
    → i < 16
    → (fs.nodes dir).entry i ≡ none
    → 32 ≤ length name
    → tmpfs_lookup dir name fs ≡ none
    → let (v, fs') = add_child kind dir name fs in
      (v ≡ some fs.next)
      × ((fs'.nodes fs.next).name ≡ take 31 name)
      × ((j : ℕ) × ((fs.nodes dir).entry j ≡ none) × ((fs'.nodes dir).entry j ≡ some fs.next))
      × (tmpfs_lookup dir name fs' ≡ none)
unfolding add_child
add_child-long_name kind dir name fs i tree inside is_dir small null long miss =
    elim (Option-cases (free_entry max_dir_entry 0 (fs.nodes dir).entry)) [
      | inl full ↦
          absurd
            (free_entry-none max_dir_entry 0 i (fs.nodes dir).entry full (omega arith) small null)
      | inr (j, free) ↦
          let (lo, hi, was) = free_entry-some max_dir_entry 0 (fs.nodes dir).entry free in
          let at = at_dir kind dir name fs j tree inside is_dir free in
          rw (add kind dir name fs j tree inside is_dir free) (
            refl,
            unfold names' in added_name kind dir name fs j tree inside is_dir free,
            (j, was, unfold entries in ap (λ t. t.entry j) at ∙ ground arith),
            others kind dir name fs j tree inside is_dir free name (λ e. shorter e) ∙ miss,
          )
    ]
  where
    shorter : name ≢ take (max_file_name - 1) name
    shorter e =
        let same : length name ≡ length (take (max_file_name - 1) name) = ap length e in
        absurd (omega (arith, length-take (max_file_name - 1) name))
