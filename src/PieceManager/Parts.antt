-- ===== src/PieceManager/Parts.antt =====
-- `blockReceived` in its two parts, up to the release of the mutex and from there on, between which other
-- threads may run. A piece that has been found is held by pointer, so that the second part works on it
-- wherever it stands by then.
pub mod Whole
pub mod Repeated
pub mod Twice
use ufo_torrent.Common.{
  ℕ, Bool, true, false, [], Bytes, Option, none, some, if◌then◌else◌, Outcome, ok, throws,
  undefined, runtime_error, ◌>>=◌,
}
use ufo_torrent.Piece
use ufo_torrent.Piece.{Piece, is_hash_matching, reset}
use ufo_torrent.PieceManager.State.{PieceManager}
use ufo_torrent.PieceManager.Requests.{replace_piece}
use ufo_torrent.PieceManager.Receive.{remove_request, find_piece, write, finish_piece}

-- Up to `lock.unlock()`, with whether the piece is ongoing.
unfoldable pub locked_part : ℕ → ℕ → PieceManager → PieceManager × Bool
unfolding remove_request find_piece
locked_part i offset m = (
  record m { pending_requests = remove_request i offset m.pending_requests },
  elim (find_piece i m.ongoing_pieces) [ none ↦ false | some p ↦ true ],
)

-- The piece that a pointer from the ongoing ones leads to.
unfoldable pub target_piece : ℕ → PieceManager → Option Piece
unfolding find_piece
target_piece i m = elim (find_piece i m.ongoing_pieces) [
  | none ↦ find_piece i m.have_pieces
  | some p ↦ some p
]

-- A change of a piece in its place.
unfoldable pub change_piece : Piece → PieceManager → PieceManager
unfolding replace_piece
change_piece p m = record m {
  ongoing_pieces = replace_piece p m.ongoing_pieces;
  have_pieces = replace_piece p m.have_pieces;
}

unfoldable pub settle_target : Bool → Piece → PieceManager → Outcome PieceManager
unfolding write finish_piece change_piece
settle_target true p m = write p m >>= λ written. ok (finish_piece p written)
settle_target false p m = ok (change_piece (reset p) m)

module _ (sha1 : Bytes → Bytes) where
  unfoldable pub check_target : Piece → PieceManager → Outcome PieceManager
  unfolding settle_target
  check_target p m =
      if Piece.is_complete p
      then (is_hash_matching sha1 p >>= λ matching. settle_target matching p m)
      else ok m

  -- From `targetPiece->block_received` on.
  unfoldable pub unlocked_part : ℕ → ℕ → Bytes → PieceManager → Outcome PieceManager
  unfolding target_piece check_target change_piece
  unlocked_part i offset content m = elim (target_piece i m) [
    | none ↦ undefined
    | some p ↦ (Piece.block_received offset content p >>= λ p'. check_target p' (change_piece p' m))
  ]

  -- The whole call, where no other thread runs between the parts.
  unfoldable pub both_parts : ℕ → ℕ → Bytes → PieceManager → PieceManager × Outcome PieceManager
  unfolding locked_part unlocked_part
  both_parts i offset content m =
      let locked = locked_part i offset m in
      (locked.0, if locked.1 then unlocked_part i offset content locked.0 else throws runtime_error)
