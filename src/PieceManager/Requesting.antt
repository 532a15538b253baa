-- ===== src/PieceManager/Requesting.antt =====
-- When a block is requested, and when it never is again.
use ufo_torrent.Common.{
  ℕ, ◌+◌, ◌≤◌, true, ◌&&◌, List, [], ◌∷◌, Bytes, Option, none, some, leb, ok, ◌≡◌, refl, inl, inr,
  arith, Bool-cases, Option-cases, Returns, Returns-self, Returns-bind,
}
use ufo_torrent.Utils.{has_piece}
use ufo_torrent.Piece
use ufo_torrent.Piece.{Piece, Block, pending, missing, request_block}
use ufo_torrent.PieceManager.State.{PieceManager, PendingRequest}
use ufo_torrent.PieceManager.Requests.{
  request_rarest, expired_request, get_rarest_piece, max_pending_time,
}
use ufo_torrent.PieceManager.Choice.{IsChoice, get_rarest_piece-IsChoice}

-- The request is due for this peer: it has the piece, and the block has been pending long enough.
abbrev pub IsDue : ℕ → Bytes → PendingRequest → Type 0
IsDue now bits r = (has_piece bits r.block.piece ≡ ok true) × (r.timestamp + max_pending_time ≤ now)

-- The first request that is due is answered, and its time starts anew; the others stay.
pub data Reissues (now : ℕ) (bits : Bytes)
    : List PendingRequest → Option Block → List PendingRequest → Type 0 where
  none_due : Reissues now bits [] none []
  first_due :
      (r : PendingRequest) (rs : List PendingRequest)
      → IsDue now bits r
      → Reissues now bits (r ∷ rs) (some r.block) (record r { timestamp = now } ∷ rs)
  later_due :
      (r : PendingRequest) {rs rs' : List PendingRequest} {b : Option Block}
      → ¬ IsDue now bits r
      → Reissues now bits rs b rs'
      → Reissues now bits (r ∷ rs) b (r ∷ rs')

-- `expiredRequest` answers the first pending request that the peer can serve and that is at least ten seconds old, restarts its time, and changes nothing else.
pub expired_request-Reissues :
    (now : ℕ) (bits : Bytes) (rs : List PendingRequest)
    → Returns
        (λ (r : Option Block × List PendingRequest). Reissues now bits rs r.0 r.1)
        (expired_request now bits rs)
unfolding expired_request
expired_request-Reissues now bits [] = none_due
expired_request-Reissues now bits (r ∷ rs) =
    Returns-bind (λ has. has_piece bits r.block.piece ≡ ok has)
      (λ q. Reissues now bits (r ∷ rs) q.0 q.1) (has_piece bits r.block.piece) _
      (Returns-self (has_piece bits r.block.piece))
      λ has e. elim (Bool-cases (has && leb (r.timestamp + max_pending_time) now)) [
        | inl due ↦ rw due (first_due r rs (ground (arith, e, due), ground (arith, due)))
        | inr fresh ↦ rw fresh (
            Returns-bind (λ q. Reissues now bits rs q.0 q.1)
              (λ q. Reissues now bits (r ∷ rs) q.0 q.1) (expired_request now bits rs) _
              (expired_request-Reissues now bits rs)
              (λ q h. later_due r (λ d. absurd (ground (arith, e, fresh, d.0, d.1))) h))
      ]

-- The block that starts a piece is given out without a pending request: the list of them stays as it was.
pub request_rarest-pending :
    (bits : Bytes) (m : PieceManager)
    → Returns
        (λ (r : Option Block × PieceManager). r.1.pending_requests ≡ m.pending_requests)
        (request_rarest bits m)
unfolding request_rarest
request_rarest-pending bits m =
    Returns-bind (IsChoice bits m) (λ r. r.1.pending_requests ≡ m.pending_requests)
      (get_rarest_piece bits m) _ (get_rarest_piece-IsChoice bits m)
      λ (p, m') c. elim (Option-cases (Piece.next_request p)) [
        | inl full ↦ rw (full, c.moved) refl
        | inr (found, e) ↦ rw (e, c.moved) refl
      ]
