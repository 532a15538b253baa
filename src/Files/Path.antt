-- ===== src/Files/Path.antt =====
-- The paths of `std::filesystem` on a POSIX system, as src/main.cpp and src/models/torrentFile.cpp
-- use them.
use ufo_torrent.Common.{
  Bool, false, ◌&&◌, ◌||◌, [], ◌∷◌, ◌++◌, Bytes, Option, none, some, ◌==◌, beq, if◌then◌else◌,
  is_empty, ◌≡◌, refl,
}

-- What stands before and behind the last slash.
unfoldable pub split_last : Bytes → Option (Bytes × Bytes)
split_last [] = none
split_last (c ∷ path) = elim (split_last path) [
  | none ↦ if c == b'/' then some ([], path) else none
  | some (before, after) ↦ some (c ∷ before, after)
]

-- `path::filename`.
unfoldable pub filename : Bytes → Bytes
unfolding split_last
filename path = elim (split_last path) [ none ↦ path | some (before, after) ↦ after ]

unfoldable pub strip_slashes : Bytes → Bytes
strip_slashes [] = []
strip_slashes (c ∷ path) =
    let rest = strip_slashes path in if is_empty rest && c == b'/' then [] else c ∷ rest

-- `path::parent_path`; the parent of the root is the root.
unfoldable pub parent_path : Bytes → Bytes
unfolding split_last strip_slashes
parent_path path = elim (split_last path) [
  | none ↦ []
  | some (before, after) ↦
      if is_empty (strip_slashes before) then b'/' ∷ [] else strip_slashes before
]

-- What stands from the last dot on.
unfoldable pub from_dot : Bytes → Bytes
from_dot [] = []
from_dot (c ∷ name) =
    let rest = from_dot name in if is_empty rest && c == b'.' then c ∷ name else rest

-- The extension of a file name: a dot at its start begins none.
unfoldable pub name_extension : Bytes → Bytes
unfolding from_dot
name_extension [] = []
name_extension (c ∷ name) = if beq (c ∷ name) (b'.' ∷ b'.' ∷ []) then [] else from_dot name

-- `path::extension`.
unfoldable pub extension : Bytes → Bytes
unfolding filename name_extension
extension path = name_extension (filename path)

abbrev ends_in_slash : Bytes → Bool
ends_in_slash [] = false
ends_in_slash (c ∷ []) = c == b'/'
ends_in_slash (c ∷ d ∷ path) = ends_in_slash (d ∷ path)

-- `path / name`.
unfoldable pub join : Bytes → Bytes → Bytes
join path [] = if is_empty path || ends_in_slash path then path else path ++ (b'/' ∷ [])
join path (c ∷ name) =
    if c == b'/'
    then c ∷ name
    else if is_empty path || ends_in_slash path
    then path ++ (c ∷ name)
    else path ++ (b'/' ∷ c ∷ name)

-- "a.torrent" in "/x", and what is read off "/x/a.torrent".
join_sample :
    (join (b'/' ∷ b'x' ∷ []) (b'a' ∷ b'.' ∷ b't' ∷ [])
      ≡ b'/' ∷ b'x' ∷ b'/' ∷ b'a' ∷ b'.' ∷ b't' ∷ [])
    × (extension (b'/' ∷ b'x' ∷ b'/' ∷ b'a' ∷ b'.' ∷ b't' ∷ []) ≡ b'.' ∷ b't' ∷ [])
    × (parent_path (b'/' ∷ b'x' ∷ b'/' ∷ b'a' ∷ []) ≡ b'/' ∷ b'x' ∷ [])
    × (parent_path (b'/' ∷ b'x' ∷ []) ≡ b'/' ∷ [])
    × (parent_path (b'/' ∷ []) ≡ b'/' ∷ [])
    × (parent_path (b'x' ∷ []) ≡ [])
unfolding join extension parent_path
join_sample = (refl, refl, refl, refl, refl, refl)
