-- ===== src/Files.antt =====
-- src/utils/fileUtils.cpp. What the disk
-- holds is an association of paths and contents; whether it lets a file be opened or written is an
-- argument.
pub mod Path
pub mod System
pub mod Laws
use ufo_torrent.Common.{
  [], ℕ, Bool, not, List, Bytes, none, some, if◌then◌else◌, length, Outcome, ok, throws,
  runtime_error,
}
use ufo_torrent.PieceManager.State.{lookup, insert}

abbrev pub Disk : Type 0
Disk = List (Bytes × Bytes)

-- `getFileSize`.
unfoldable pub get_file_size : Disk → Bytes → Outcome ℕ
unfolding lookup
get_file_size disk path = elim (lookup path disk) [
  | none ↦ throws runtime_error
  | some content ↦ ok (length content)
]

-- `createFile`: opening a file empties it, and a write that fails leaves it so.
unfoldable pub create_file : Bool → Bool → Bytes → Bytes → Disk → Disk × Outcome (Unit {0})
unfolding insert
create_file opens writes path content disk =
    if not opens
    then (disk, throws runtime_error)
    else if not writes
    then (insert path [] disk, throws runtime_error)
    else (insert path content disk, ok tt)

-- `read`.
unfoldable pub read : Disk → Bytes → Outcome Bytes
unfolding lookup
read disk path = elim (lookup path disk) [ none ↦ throws runtime_error | some content ↦ ok content ]
