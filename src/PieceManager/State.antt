-- ===== src/PieceManager/State.antt =====
-- The state of the piece manager, its table of peers and its output file.
use ufo_torrent.Common.{
  ℕ, ◌+◌, ◌-◌, ◌*◌, ◌%◌, ◌^◌, Bool, List, [], ◌∷◌, ◌++◌, Bytes, Option, none, some, ◌==◌, beq,
  if◌then◌else◌, length, take, drop, replicate,
}
use ufo_torrent.Piece.{Piece, Block}

-- `std::map<std::string, std::string>`; the order of the entries is never looked at.
abbrev pub PeerMap : Type 0
PeerMap = List (Bytes × Bytes)

unfoldable pub lookup : Bytes → PeerMap → Option Bytes
lookup k [] = none
lookup k ((j, v) ∷ m) = if beq j k then some v else lookup k m

-- `peers[k] = v`.
unfoldable pub insert : Bytes → Bytes → PeerMap → PeerMap
insert k v [] = (k, v) ∷ []
insert k v ((j, w) ∷ m) = let rest = insert k v m in if beq j k then (k, v) ∷ m else (j, w) ∷ rest

-- `peers.erase(iter)`.
unfoldable pub erase : Bytes → PeerMap → PeerMap
erase k [] = []
erase k ((j, w) ∷ m) = let rest = erase k m in if beq j k then m else (j, w) ∷ rest

-- `std::ofstream`: the bytes of the file, and the fail bit, under which writes do nothing.
pub record OutFile : Type 0 where
  pub content : Bytes
  pub failed : Bool

-- The bytes of a file after a write; a gap before it reads as zeros.
unfoldable pub overlay : ℕ → Bytes → Bytes → Bytes
overlay position [] content = content
overlay position (b ∷ bs) content =
    take position (content ++ replicate (position - length content) 0)
    ++ ((b ∷ bs) ++ drop (position + length (b ∷ bs)) content)

-- `seekp(position)` and a write.
unfoldable pub write_at : ℕ → Bytes → OutFile → OutFile
unfolding overlay
write_at position bytes f =
    if f.failed then f else record f { content = overlay position bytes f.content }

-- The block is held by pointer; only its piece, offset and length are read through the request,
-- and they never change.
pub record PendingRequest : Type 0 where
  pub block : Block
  pub timestamp : ℕ

pub record PieceManager : Type 0 where
  pub peers : PeerMap
  pub missing_pieces : List Piece
  pub ongoing_pieces : List Piece
  pub have_pieces : List Piece
  pub pending_requests : List PendingRequest
  pub downloaded_file : OutFile
  pub piece_length : ℕ
  pub maximum_connections : ℕ
  pub pieces_downloaded_in_interval : ℕ
  pub starting_time : ℕ
  pub total_pieces : ℕ

-- `isComplete`.
unfoldable pub is_complete : PieceManager → Bool
is_complete m = length m.have_pieces == m.total_pieces

-- `bytesDownloaded`, an `unsigned long`.
unfoldable pub bytes_downloaded : PieceManager → ℕ
bytes_downloaded m = length m.have_pieces * m.piece_length % 2 ^ 64
