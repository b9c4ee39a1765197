-- ===== src/Python/Path.antt =====
-- `os.path` on POSIX: `isabs`, `join` and `splitext`; and the test `in` on texts.
use pedge.Prelude.{
  ℕ, [], ◌∷◌, ◌++◌, Bool, true, false, ◌&&◌, ◌||◌, ◌==◌, Option, none, some, if◌then◌else◌, drop,
}
use pedge.Python.Bytes.{Str}

unfoldable pub isabs : Str → Bool
isabs [] = false
isabs (c ∷ s) = c == b'/'

unfoldable pub ends_with_slash : Str → Bool
ends_with_slash [] = false
ends_with_slash (c ∷ []) = c == b'/'
ends_with_slash (c ∷ d ∷ s) = ends_with_slash (d ∷ s)

unfoldable pub is_empty : Str → Bool
is_empty [] = true
is_empty (c ∷ s) = false

-- `os.path.join(path, name)`.
unfoldable pub join : Str → Str → Str
unfolding isabs ends_with_slash is_empty
join path name =
    if isabs name
    then name
    else if is_empty path || ends_with_slash path
    then path ++ name
    else path ++ (b'/' ∷ name)

-- A text before, and from, the last place of a character.
unfoldable pub split_last : ℕ → Str → Option (Str × Str)
split_last c [] = none
split_last c (x ∷ s) = elim (split_last c s) [
  | some (before, from) ↦ some (x ∷ before, from)
  | none ↦ if x == c then some ([], x ∷ s) else none
]

-- The directory with its last slash, and the name after it.
unfoldable pub split_dir : Str → Str × Str
unfolding split_last
split_dir p = elim (split_last b'/' p) [
  | none ↦ ([], p)
  | some (a, b) ↦ (a ++ (b'/' ∷ []), drop 1 b)
]

-- The first part of `os.path.split(p)`: the directory, without its last slashes unless it is all
-- slashes.
unfoldable pub all_slashes : Str → Bool
all_slashes [] = true
all_slashes (c ∷ s) = c == b'/' && all_slashes s

unfoldable pub strip_slashes : Str → Str
unfolding all_slashes
strip_slashes [] = []
strip_slashes (c ∷ s) = let rest = strip_slashes s in if all_slashes (c ∷ s) then [] else c ∷ rest

unfoldable pub dirname : Str → Str
unfolding split_dir all_slashes strip_slashes
dirname p = let (dir, name) = split_dir p in if all_slashes dir then dir else strip_slashes dir

unfoldable pub all_dots : Str → Bool
all_dots [] = true
all_dots (c ∷ s) = c == b'.' && all_dots s

-- `os.path.splitext`: leading dots of a name begin no extension.
unfoldable pub splitext : Str → Str × Str
unfolding split_dir split_last all_dots
splitext p =
    let (dir, name) = split_dir p in
    elim (split_last b'.' name) [
      | none ↦ (p, [])
      | some (stem, ext) ↦ if all_dots stem then (p, []) else (dir ++ stem, ext)
    ]

unfoldable pub has_prefix : Str → Str → Bool
has_prefix [] s = true
has_prefix (c ∷ p) [] = false
has_prefix (c ∷ p) (d ∷ s) = c == d && has_prefix p s

-- `p in s`.
unfoldable pub contains : Str → Str → Bool
unfolding has_prefix
contains p [] = has_prefix p []
contains p (c ∷ s) = has_prefix p (c ∷ s) || contains p s
