-- ===== src/Vfs/Paths.antt =====
-- src/vfs.c: the characters of a path, without the NUL at its end.
use bare_metal_os.Base.{
  ℕ, Bool, true, false, ◌&&◌, Option, none, some, List, [], ◌∷◌, ◌==◌, if◌then◌else◌,
}

abbrev pub slash : ℕ
slash = 47

-- "." and ".."
abbrev pub dot : List ℕ
dot = 46 ∷ []

abbrev pub dot_dot : List ℕ
dot_dot = 46 ∷ 46 ∷ []

-- strcmp(a, b) == 0
unfoldable pub same_chars : List ℕ → List ℕ → Bool
same_chars [] [] = true
same_chars [] (b ∷ ys) = false
same_chars (a ∷ xs) [] = false
same_chars (a ∷ xs) (b ∷ ys) = (a == b) && same_chars xs ys

abbrev pub is_empty_path : List ℕ → Bool
is_empty_path [] = true
is_empty_path (c ∷ cs) = false

abbrev pub is_absolute : List ℕ → Bool
is_absolute [] = false
is_absolute (c ∷ cs) = c == slash

-- while (pathname[i] == '/') i++
unfoldable pub skip_slashes : List ℕ → List ℕ
skip_slashes [] = []
skip_slashes (c ∷ cs) = let rest = skip_slashes cs in if c == slash then rest else c ∷ cs

-- The characters up to a slash or the end, and what is left. The buffer of the code has PATH_MAX
-- characters and no test: this is what it does for a component that fits.
unfoldable pub take_component : List ℕ → List ℕ × List ℕ
take_component [] = ([], [])
take_component (c ∷ cs) =
    let (name, rest) = take_component cs in if c == slash then ([], c ∷ cs) else (c ∷ name, rest)

-- while (len > 1 && temp[len - 1] == '/'), from the end: all slashes at the end but the first
-- character go.
unfoldable pub strip_tail : List ℕ → List ℕ
strip_tail [] = []
strip_tail (c ∷ cs) =
    let rest = strip_tail cs in if (c == slash) && is_empty_path rest then [] else c ∷ rest

unfoldable pub strip_slashes : List ℕ → List ℕ
strip_slashes [] = []
strip_slashes (c ∷ cs) = c ∷ strip_tail cs

-- The part before the last slash and the part behind it, or none without a slash.
unfoldable pub split_last : List ℕ → Option (List ℕ × List ℕ)
split_last [] = none
split_last (c ∷ cs) = elim (split_last cs) [
  | some (before, behind) ↦ some (c ∷ before, behind)
  | none ↦ if c == slash then some ([], cs) else none
]

-- `get_parent_and_child` for a path of fewer than PATH_MAX characters.
unfoldable pub get_parent_and_child : List ℕ → List ℕ × List ℕ
get_parent_and_child path = elim (split_last (strip_slashes path)) [
  | none ↦ (dot, strip_slashes path)
  | some (before, behind) ↦ (if is_empty_path before then slash ∷ [] else before, behind)
]
