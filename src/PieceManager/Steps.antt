-- ===== src/PieceManager/Steps.antt =====
-- The histories of a piece manager: any sequence of calls, by any peers, in any order, with the resets
-- of the progress thread between them. A call that throws leaves the state that the code has reached by
-- then. `blockReceived` releases its mutex after the search for the piece, so that it is a step as a
-- whole and also two, with any other steps between them, as long as the piece that was found is still
-- ongoing at the second one; what happens when it is not is in Parts/Repeated.
use ufo_torrent.Common.{ℕ, Bytes, Option, some, ok, throws, Exception, ◌≡◌}
use ufo_torrent.Piece.{Piece, Block}
use ufo_torrent.PieceManager.State.{PieceManager}
use ufo_torrent.PieceManager.Peers.{add_peer, update_peer, remove_peer}
use ufo_torrent.PieceManager.Requests.{next_request}
use ufo_torrent.PieceManager.Receive.{block_received, remove_request, find_piece, receive_into}
use ufo_torrent.PieceManager.Progress.{reset_interval}

module _ (sha1 : Bytes → Bytes) where
  pub data Step : PieceManager → PieceManager → Type 0 where
    adds : (peer_id bits : Bytes) (m : PieceManager) → Step m (add_peer peer_id bits m)
    updates :
        (peer_id : Bytes) (index : ℕ) {m m' : PieceManager}
        → update_peer peer_id index m ≡ ok m'
        → Step m m'
    removes : (peer_id : Bytes) {m m' : PieceManager} → remove_peer peer_id m ≡ ok m' → Step m m'
    requests :
        (now later : ℕ) (peer_id : Bytes) (b : Option Block) {m m' : PieceManager}
        → next_request now later peer_id m ≡ ok (b, m')
        → Step m m'
    receives :
        (index offset : ℕ) (content : Bytes) {m m' : PieceManager}
        → (block_received sha1 index offset content m).1 ≡ ok m'
        → Step m m'
    refuses :
        (index offset : ℕ) (content : Bytes) (e : Exception) (m : PieceManager)
        → (block_received sha1 index offset content m).1 ≡ throws e
        → Step m (block_received sha1 index offset content m).0
    locks :
        (index offset : ℕ) (m : PieceManager)
        → Step m (record m { pending_requests = remove_request index offset m.pending_requests })
    unlocks :
        (index offset : ℕ) (content : Bytes) (p : Piece) {m m' : PieceManager}
        → find_piece index m.ongoing_pieces ≡ some p
        → receive_into sha1 offset content p m ≡ ok m'
        → Step m m'
    resets : (m : PieceManager) → Step m (reset_interval m)

  pub data Reach (m : PieceManager) : PieceManager → Type 0 where
    here : Reach m m
    next : {m' m'' : PieceManager} → Reach m m' → Step m' m'' → Reach m m''
