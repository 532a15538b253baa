-- ===== src/PieceManager/Receive.antt =====
-- `blockReceived` and `write`. An exception leaves the state as the code has changed it by then.
use ufo_torrent.Common.{
  ℕ, ◌+◌, ◌*◌, Bool, true, false, ◌&&◌, List, [], ◌∷◌, ◌++◌, Bytes, Option, none, some, ◌==◌,
  if◌then◌else◌, Outcome, ok, throws, runtime_error, ◌>>=◌,
}
use ufo_torrent.Piece
use ufo_torrent.Piece.{Piece, piece_data, is_hash_matching, reset}
use ufo_torrent.PieceManager.State.{PieceManager, PendingRequest, write_at}
use ufo_torrent.PieceManager.Requests.{remove_piece, replace_piece}

-- The first pending request for the block goes.
unfoldable pub remove_request : ℕ → ℕ → List PendingRequest → List PendingRequest
remove_request i offset [] = []
remove_request i offset (r ∷ rs) =
    let rest = remove_request i offset rs in
    if r.block.piece == i && r.block.offset == offset then rs else r ∷ rest

unfoldable pub find_piece : ℕ → List Piece → Option Piece
find_piece i [] = none
find_piece i (p ∷ ps) = if p.index == i then some p else find_piece i ps

-- `write`: the data of the piece at its place in the file.
unfoldable pub write : Piece → PieceManager → Outcome PieceManager
write p m = do
  bytes ← piece_data p
  ok (record m { downloaded_file = write_at (p.index * m.piece_length) bytes m.downloaded_file })

-- The piece goes from the ongoing to the finished ones.
unfoldable pub finish_piece : Piece → PieceManager → PieceManager
finish_piece p m = record m {
  ongoing_pieces = remove_piece p.index m.ongoing_pieces;
  have_pieces = m.have_pieces ++ (p ∷ []);
  pieces_downloaded_in_interval = m.pieces_downloaded_in_interval + 1;
}

-- What happens to a complete piece, by whether its hash matches.
unfoldable pub settle_piece : Bool → Piece → PieceManager → Outcome PieceManager
unfolding write finish_piece
settle_piece true p m = write p m >>= λ written. ok (finish_piece p written)
settle_piece false p m = ok (record m { ongoing_pieces = replace_piece (reset p) m.ongoing_pieces })

module _ (sha1 : Bytes → Bytes) where
  -- What happens to a piece that holds a new block.
  unfoldable pub check_piece : Piece → PieceManager → Outcome PieceManager
  unfolding settle_piece
  check_piece p m =
      if Piece.is_complete p
      then (is_hash_matching sha1 p >>= λ matching. settle_piece matching p m)
      else ok m

  -- The part of `blockReceived` after the search for the piece.
  unfoldable pub receive_into : ℕ → Bytes → Piece → PieceManager → Outcome PieceManager
  unfolding check_piece
  receive_into offset content p m = do
    p' ← Piece.block_received offset content p
    check_piece p' (record m { ongoing_pieces = replace_piece p' m.ongoing_pieces })

  -- `blockReceived`; the manager beside a throw is the one that the exception leaves.
  unfoldable pub block_received : ℕ → ℕ → Bytes → PieceManager → PieceManager × Outcome PieceManager
  unfolding receive_into
  block_received i offset content m =
      let m' : PieceManager = record m {
        pending_requests = remove_request i offset m.pending_requests;
      } in
      (
        m',
        elim (find_piece i m'.ongoing_pieces) [
          | none ↦ throws runtime_error
          | some p ↦ receive_into offset content p m'
        ],
      )
