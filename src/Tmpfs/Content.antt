-- ===== src/Tmpfs/Content.antt =====
-- The content of files: what `tmpfs_write` writes, `tmpfs_read` reads.
use bare_metal_os.Base.{
  ℕ, zero, suc, ◌+◌, ◌≤◌, ◌<◌, ◌≡◌, refl, ap, ◌⊎◌, inl, false, some, List, [], ◌∷◌, arith, ltb, leb,
  if◌then◌else◌, length, take, update,
}
use bare_metal_os.Base.Words.{add64}
use bare_metal_os.Tmpfs.{
  max_file_size, bytes_at, put_bytes, content_of, tmpfs_read, tmpfs_write, TmpfsVnode, fs_file,
}

-- A file that fits its buffer.
abbrev pub Fits : TmpfsVnode → Type 0
Fits inode = inode.size ≤ max_file_size

pub take-all : (n : ℕ) (l : List ℕ) → length l ≤ n → take n l ≡ l
take-all zero [] le = refl
take-all zero (x ∷ l) le = absurd (omega arith)
take-all (suc n) [] le = refl
take-all (suc n) (x ∷ l) le = ap (λ r. x ∷ r) (take-all n l (omega arith))

pub length-take : (n : ℕ) (l : List ℕ) → length (take n l) ≤ n
length-take zero l = omega arith
length-take (suc n) [] = omega arith
length-take (suc n) (x ∷ l) = omega (arith, length-take n l)

put_bytes-before :
    (xs : List ℕ) (pos : ℕ) (content : ℕ → ℕ) (i : ℕ)
    → (i < pos) ⊎ (pos + length xs ≤ i)
    → put_bytes xs pos content i ≡ content i
unfolding put_bytes
put_bytes-before [] pos content i out = refl
put_bytes-before (x ∷ xs) pos content i out =
    ground (arith, put_bytes-before xs (pos + 1) (update content pos x) i (omega arith))

bytes_at-put_bytes :
    (xs : List ℕ) (pos : ℕ) (content : ℕ → ℕ)
    → bytes_at (put_bytes xs pos content) pos (length xs) ≡ xs
unfolding bytes_at put_bytes
bytes_at-put_bytes [] pos content = refl
bytes_at-put_bytes (x ∷ xs) pos content =
    let head = put_bytes-before xs (pos + 1) (update content pos x) pos (inl (omega arith)) in
    let here : update content pos x pos ≡ x = ground arith in
    rw (head, here) (ap (λ l. x ∷ l) (bytes_at-put_bytes xs (pos + 1) (update content pos x)))

module _ (blank : ℕ → ℕ) (inode : TmpfsVnode) (f_pos : ℕ) (buf : List ℕ)
    (file : inode.kind ≡ fs_file) (fits : Fits inode) (pos : 0 < length buf)
    (room : f_pos + length buf ≤ max_file_size) where
  written : TmpfsVnode
  written = record inode {
    content = some (put_bytes buf f_pos (content_of blank inode.content));
    size = if ltb inode.size (f_pos + length buf) then f_pos + length buf else inode.size;
  }

  total : add64 f_pos (length buf) ≡ f_pos + length buf
  total = omega arith

  end-size : f_pos + length buf ≤ written.size
  unfolding written
  end-size = ground arith

  writes : tmpfs_write blank inode f_pos buf ≡ some (length buf, f_pos + length buf, written)
  unfolding tmpfs_write written
  writes =
      let within : ltb max_file_size (f_pos + length buf) ≡ false = ground arith in
      rw (file, total, within, total, take-all (length buf) buf (omega arith)) refl

  reads : tmpfs_read written f_pos (length buf) ≡ some (buf, f_pos + length buf)
  unfolding tmpfs_read
  reads =
      let within : ltb written.size (f_pos + length buf) ≡ false = ground (arith, end-size) in
      let more : leb written.size f_pos ≡ false = ground (arith, end-size) in
      let is : written.kind ≡ fs_file = unfold written in file in
      rw (is, total, within, more, total)
        (unfold written in rw (bytes_at-put_bytes buf f_pos (content_of blank inode.content)) refl)

-- Writing to a file that fits its buffer, within the buffer: all the bytes are written, the position
-- moves behind them, the file still fits, no other byte of it changes, and reading as many bytes
-- from the old position gives the bytes.
pub write-read :
    (blank : ℕ → ℕ) (inode : TmpfsVnode) (f_pos : ℕ) (buf : List ℕ)
    → inode.kind ≡ fs_file
    → Fits inode
    → 0 < length buf
    → f_pos + length buf ≤ max_file_size
    → (inode' : TmpfsVnode) × (tmpfs_write blank inode f_pos buf
        ≡ some (length buf, f_pos + length buf, inode'))
      × Fits inode'
      × (tmpfs_read inode' f_pos (length buf) ≡ some (buf, f_pos + length buf))
      × ((i : ℕ)
          → (i < f_pos) ⊎ (f_pos + length buf ≤ i)
          → content_of blank inode'.content i ≡ content_of blank inode.content i)
write-read blank inode f_pos buf file fits pos room = (
  written blank inode f_pos buf file fits pos room,
  writes blank inode f_pos buf file fits pos room,
  unfold written in ground arith,
  reads blank inode f_pos buf file fits pos room,
  λ i out. unfold written in put_bytes-before buf f_pos (content_of blank inode.content) i out,
)
