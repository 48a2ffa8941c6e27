-- ===== src/Tmpfs.antt =====
-- src/tmpfs.c: files and directories in memory. A vnode is a number; the nodes are a map from it.
-- What `allocate` gives is taken to be new, as the code takes it.
pub mod Content
pub mod Entries
pub mod Directory
mod Tests
use bare_metal_os.Base.{
  ℕ, zero, suc, ◌+◌, ◌-◌, Bool, true, false, not, ◌&&◌, Option, none, some, List, [], ◌∷◌, ltb, leb,
  ◌==◌, if◌then◌else◌, length, take, update,
}
use bare_metal_os.Base.Words.{add64, sub64}

-- TMPFS_MAX_FILE_NAME
abbrev pub max_file_name : ℕ
max_file_name = 32

-- TMPFS_MAX_DIR_ENTRY
abbrev pub max_dir_entry : ℕ
max_dir_entry = 16

-- TMPFS_MAX_FILE_SIZE
abbrev pub max_file_size : ℕ
max_file_size = 4096

-- `enum fsnode_type`
pub data FsnodeType : Type 0 where
  fs_dir : FsnodeType
  fs_file : FsnodeType

-- `struct tmpfs_vnode`; a name is its characters without the zero, `none` is NULL.
pub record TmpfsVnode : Type 0 where
  pub kind : FsnodeType
  pub name : List ℕ
  pub entry : ℕ → Option ℕ
  pub content : Option (ℕ → ℕ)
  pub size : ℕ

-- The nodes that there are have the numbers below `next`.
pub record Tmpfs : Type 0 where
  pub nodes : ℕ → TmpfsVnode
  pub next : ℕ

abbrev pub is_file : FsnodeType → Bool
is_file fs_dir = false
is_file fs_file = true

-- memcpy from the content: `n` bytes from `pos` on.
pub bytes_at : (ℕ → ℕ) → ℕ → ℕ → List ℕ
bytes_at content pos zero = []
bytes_at content pos (suc n) = content pos ∷ bytes_at content (pos + 1) n

-- memcpy to the content.
pub put_bytes : List ℕ → ℕ → (ℕ → ℕ) → ℕ → ℕ
put_bytes [] pos content = content
put_bytes (x ∷ xs) pos content = put_bytes xs (pos + 1) (update content pos x)

-- `inode->data + pos` of a file without data is never read: its size is 0.
abbrev pub content_of : (ℕ → ℕ) → Option (ℕ → ℕ) → ℕ → ℕ
content_of blank none = blank
content_of blank (some content) = content

-- `tmpfs_read`: the bytes, whose number it returns, and the new position; `none` is -1.
pub tmpfs_read : TmpfsVnode → ℕ → ℕ → Option (List ℕ × ℕ)
tmpfs_read inode f_pos len =
    let len' = if ltb inode.size (add64 f_pos len) then sub64 inode.size f_pos else len in
    if not (is_file inode.kind)
    then none
    else if leb inode.size f_pos
    then some ([], f_pos)
    else some (bytes_at (content_of (λ i. 0) inode.content) f_pos len', add64 f_pos len')

-- `tmpfs_write`: how many bytes it has written, the new position and the node; `blank` is what the
-- memory that `allocate` gives holds. At a position behind the buffer the length wraps round; what the
-- code then copies from behind `buf` has no model.
pub tmpfs_write : (ℕ → ℕ) → TmpfsVnode → ℕ → List ℕ → Option (ℕ × ℕ × TmpfsVnode)
tmpfs_write blank inode f_pos buf =
    let len = length buf in
    let len' = if ltb max_file_size (add64 f_pos len) then sub64 max_file_size f_pos else len in
    let f_pos' = add64 f_pos len' in
    if not (is_file inode.kind)
    then none
    else some (
      len',
      f_pos',
      record inode {
        content = some (put_bytes (take len' buf) f_pos (content_of blank inode.content));
        size = if ltb inode.size f_pos' then f_pos' else inode.size;
      },
    )

-- strcmp(a, b) == 0
pub same_name : List ℕ → List ℕ → Bool
same_name [] [] = true
same_name [] (y ∷ ys) = false
same_name (x ∷ xs) [] = false
same_name (x ∷ xs) (y ∷ ys) = let rest = same_name xs ys in (x == y) && rest

-- The loop of `tmpfs_lookup`, with `n` entries left.
pub lookup_entry : ℕ → ℕ → (ℕ → List ℕ) → (ℕ → Option ℕ) → List ℕ → Option ℕ
lookup_entry zero i names entry name = none
lookup_entry (suc n) i names entry name =
    let rest = lookup_entry n (i + 1) names entry name in
    elim (entry i) [ none ↦ rest | some v ↦ if same_name (names v) name then some v else rest ]

-- `tmpfs_lookup`; `none` is -1.
pub tmpfs_lookup : ℕ → List ℕ → Tmpfs → Option ℕ
tmpfs_lookup dir name fs =
    if is_file (fs.nodes dir).kind
    then none
    else lookup_entry max_dir_entry 0 (λ v. (fs.nodes v).name) (fs.nodes dir).entry name

-- The first entry that is NULL.
pub free_entry : ℕ → ℕ → (ℕ → Option ℕ) → Option ℕ
free_entry zero i entry = none
free_entry (suc n) i entry =
    let rest = free_entry n (i + 1) entry in elim (entry i) [ none ↦ some i | some v ↦ rest ]

-- `tmpfs_create_vnode`, and the name that the callers copy into it.
abbrev pub new_vnode : FsnodeType → List ℕ → TmpfsVnode
new_vnode kind name = record {
  kind = kind;
  name = take (max_file_name - 1) name;
  entry = λ i. none;
  content = none;
  size = 0;
}

-- The body that `tmpfs_create` and `tmpfs_mkdir` share; `none` is -1.
pub add_child : FsnodeType → ℕ → List ℕ → Tmpfs → Option ℕ × Tmpfs
add_child kind dir name fs =
    let d = fs.nodes dir in
    if is_file d.kind then (none, fs) else (elim (free_entry max_dir_entry 0 d.entry) [
      | none ↦ (none, fs)
      | some i ↦ (
        some fs.next,
        record {
          nodes =
              update (update fs.nodes fs.next (new_vnode kind name)) dir
                (record d { entry = update d.entry i (some fs.next) });
          next = fs.next + 1;
        },
      )
    ])

pub tmpfs_create : ℕ → List ℕ → Tmpfs → Option ℕ × Tmpfs
tmpfs_create dir name fs = add_child fs_file dir name fs

pub tmpfs_mkdir : ℕ → List ℕ → Tmpfs → Option ℕ × Tmpfs
tmpfs_mkdir dir name fs = add_child fs_dir dir name fs
