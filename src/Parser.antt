-- ===== src/Parser.antt =====
-- src/network_part/TorrentFileParser.cpp. The decoder of libs is an interface: its items are a type
-- that is a parameter.
pub mod Pieces
use ufo_torrent.Common.{
  ℕ, zero, suc, ◌+◌, ◌*◌, ◌/◌, ◌%◌, List, [], ◌∷◌, Bytes, Option, none, some, ◌==◌, if◌then◌else◌,
  length, take, drop, Outcome, ok, throws, undefined, aborted, runtime_error, ◌>>=◌, ◌>>◌,
}
use ufo_torrent.Common.Int.{ℤ}
use ufo_torrent.TorrentFile.Key

-- What the program asks of the library. `as_dictionary`, `as_string` and `as_integer` are
-- `dynamic_pointer_cast`; `get_value` gives no item for a key that is not there; `decode` is given the
-- content of the file, which is empty where it cannot be opened.
pub record Library (Item Dictionary : Type 0) : Type 0 where
  pub decode : Bytes → Outcome (Option Item)
  pub encode : Option Item → Outcome Bytes
  pub get_value : Dictionary → Bytes → Option Item
  pub as_dictionary : Item → Option Dictionary
  pub as_string : Item → Option Bytes
  pub as_integer : Item → Option ℤ

-- A call through a pointer, which is undefined where it is null.
abbrev pub through {ℓ} : {A : Type ℓ} → Option A → Outcome A
through (some a) = ok a
through none = undefined

-- `if (!item) throw std::runtime_error(...)`.
abbrev pub required {ℓ} : {A : Type ℓ} → Option A → Outcome A
required (some a) = ok a
required none = throws runtime_error

abbrev pub hash_len : ℕ
hash_len = 20

-- The loop of `splitPieceHashes` from the hash number `i` on, with `rounds` left.
unfoldable pub cut_hashes : Bytes → ℕ → ℕ → List Bytes
cut_hashes pieces i zero = []
cut_hashes pieces i (suc rounds) =
    take hash_len (drop (i * hash_len) pieces) ∷ cut_hashes pieces (i + 1) rounds

-- `splitPieceHashes` on the value of `pieces`; its size is below 2 ^ 31.
unfoldable pub split_checked : Bytes → Outcome (List Bytes)
unfolding cut_hashes
split_checked pieces =
    if length pieces % hash_len == 0
    then ok (cut_hashes pieces 0 (length pieces / hash_len))
    else aborted

module _ {Item Dictionary : Type 0} (library : Library Item Dictionary) where
  abbrev cast_dictionary : Option Item → Option Dictionary
  cast_dictionary none = none
  cast_dictionary (some item) = library.as_dictionary item

  -- The constructor: `root` is null where the file holds no dictionary.
  unfoldable pub new_parser : Bytes → Outcome (Option Dictionary)
  new_parser content = do item ← library.decode content; ok (cast_dictionary item)

  -- `get`.
  unfoldable pub get : Option Dictionary → Bytes → Outcome (Option Item)
  get root key = do dictionary ← through root; ok (library.get_value dictionary key)

  -- The item of a key that has to be there, as a string and as an integer.
  unfoldable pub get_string : Option Dictionary → Bytes → Outcome Bytes
  unfolding get
  get_string root key = do
    found ← get root key
    item ← required found
    through (library.as_string item)

  unfoldable pub get_integer : Option Dictionary → Bytes → Outcome ℤ
  unfolding get
  get_integer root key = do
    found ← get root key
    item ← required found
    through (library.as_integer item)

  -- `getInfoHash`.
  unfoldable pub get_info_hash : (Bytes → Bytes) → Option Dictionary → Outcome Bytes
  unfolding get
  get_info_hash sha1 root = do
    info_dictionary ← get root Key.info
    info_string ← library.encode info_dictionary
    ok (sha1 info_string)

  -- `splitPieceHashes`.
  unfoldable pub split_piece_hashes : Option Dictionary → Outcome (List Bytes)
  unfolding get_string split_checked
  split_piece_hashes root = get_string root Key.pieces >>= split_checked

  -- `getFileSize`, `getPieceLength`, `getFileName` and `getAnnounce`.
  unfoldable pub get_file_size : Option Dictionary → Outcome ℤ
  unfolding get_integer
  get_file_size root = get_integer root Key.length

  unfoldable pub get_piece_length : Option Dictionary → Outcome ℤ
  unfolding get_integer
  get_piece_length root = get_integer root Key.piece_length

  unfoldable pub get_file_name : Option Dictionary → Outcome Bytes
  unfolding get_string
  get_file_name root = get_string root Key.name

  unfoldable pub get_announce : Option Dictionary → Outcome Bytes
  unfolding get_string
  get_announce root = get_string root Key.announce
