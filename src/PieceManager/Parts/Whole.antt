-- ===== src/PieceManager/Parts/Whole.antt =====
-- The two parts of `blockReceived` without another thread between them.
use ufo_torrent.Common.{
  ℕ, Bool, List, [], ◌∷◌, Bytes, if◌then◌else◌, count, Outcome, throws, runtime_error, ◌≡◌, refl,
  arith, Returns,
}
use ufo_torrent.Piece
use ufo_torrent.Piece.{Piece, piece_data, contents}
use ufo_torrent.PieceManager.State.{PieceManager}
use ufo_torrent.PieceManager.Requests.{replace_piece}
use ufo_torrent.PieceManager.Receive.{remove_request, block_received}
use ufo_torrent.PieceManager.Choice.{indices}
use ufo_torrent.PieceManager.Parts.{unlocked_part}

pub replace_piece-absent :
    (p : Piece) (qs : List Piece) → count p.index (indices qs) ≡ 0 → replace_piece p qs ≡ qs
unfolding replace_piece
replace_piece-absent p [] h = refl
replace_piece-absent p (q ∷ qs) h = ground (arith, replace_piece-absent p qs)

pub block_received-index :
    (offset : ℕ) (content : Bytes) (p : Piece)
    → Returns (λ (p' : Piece). p'.index ≡ p.index) (Piece.block_received offset content p)
unfolding Piece.block_received
block_received-index offset content p = ground arith

module _ (sha1 : Bytes → Bytes) where
  -- The state that the first part leaves.
  abbrev answered : ℕ → ℕ → PieceManager → PieceManager
  answered i offset m = record m { pending_requests = remove_request i offset m.pending_requests }

  -- The rest of the call, by what the first part gives.
  abbrev rest : ℕ → ℕ → Bytes → PieceManager × Bool → PieceManager × Outcome PieceManager
  rest i offset content locked = (
    locked.0,
    if locked.1 then unlocked_part sha1 i offset content locked.0 else throws runtime_error,
  )
