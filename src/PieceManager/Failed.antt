-- ===== src/PieceManager/Failed.antt =====
-- An output file that has failed, through any history of calls.
use ufo_torrent.Common.{
  ℕ, ◌*◌, Bool, true, false, Bytes, ◌≡◌, refl, ap, ◌∙◌, inl, inr, Option-cases, Returns, Returns-ok,
  Returns-bind, Returns-after, Returns-if,
}
use ufo_torrent.Piece
use ufo_torrent.Piece.{Piece, piece_data, is_hash_matching}
use ufo_torrent.PieceManager.State.{PieceManager, OutFile, write_at}
use ufo_torrent.PieceManager.Peers.{add_peer, update_peer, remove_peer}
use ufo_torrent.PieceManager.Requests.{next_request}
use ufo_torrent.PieceManager.Receive.{
  block_received, receive_into, check_piece, settle_piece, write, finish_piece, find_piece,
}
use ufo_torrent.PieceManager.Progress.{reset_interval}
use ufo_torrent.PieceManager.Steps.{
  Step, adds, updates, removes, requests, receives, refuses, locks, unlocks, resets, Reach, here,
  next,
}
use ufo_torrent.PieceManager.Untouched.{
  IsUntouched, AskUntouched, next_request-untouched, update_peer-untouched, remove_peer-untouched,
}

module _ (sha1 : Bytes → Bytes) (file : OutFile) (bad : file.failed ≡ true) where
  -- The file of the manager is that file.
  abbrev Holds : PieceManager → Type 0
  Holds m = m.downloaded_file ≡ file

  write_at-failed : (position : ℕ) (bytes : Bytes) → write_at position bytes file ≡ file
  unfolding write_at
  write_at-failed position bytes = simp (bad) refl

  write-Holds : (p : Piece) (m : PieceManager) → Holds m → Returns Holds (write p m)
  unfolding write
  write-Holds p m h = Returns-after Holds (piece_data p) _ λ bytes.
      ap (write_at (p.index * m.piece_length) bytes) h
      ∙ write_at-failed (p.index * m.piece_length) bytes

  settle_piece-Holds :
      (matching : Bool) (p : Piece) (m : PieceManager)
      → Holds m
      → Returns Holds (settle_piece matching p m)
  unfolding settle_piece finish_piece
  settle_piece-Holds true p m h =
      Returns-bind Holds Holds (write p m) _ (write-Holds p m h) (λ w k. k)
  settle_piece-Holds false p m h = h

  receive_into-Holds :
      (offset : ℕ) (content : Bytes) (p : Piece) (m : PieceManager)
      → Holds m
      → Returns Holds (receive_into sha1 offset content p m)
  unfolding receive_into check_piece
  receive_into-Holds offset content p m h =
      Returns-after Holds (Piece.block_received offset content p) _ λ q.
        Returns-if Holds (Piece.is_complete q) _ _
          (Returns-after Holds (is_hash_matching sha1 q) _
            (λ matching. settle_piece-Holds matching q _ h))
          h

  block_received-Holds :
      (i offset : ℕ) (content : Bytes) (m : PieceManager)
      → Holds m
      → Returns Holds (block_received sha1 i offset content m).1
  unfolding block_received
  block_received-Holds i offset content m h = elim (Option-cases (find_piece i m.ongoing_pieces)) [
    | inl unknown ↦ rw (unknown, block_received) tt
    | inr (p, found) ↦ rw (found, block_received) (receive_into-Holds offset content p _ h)
  ]

  Step-Holds : {m m' : PieceManager} → Holds m → Step sha1 m m' → Holds m'
  unfolding add_peer block_received reset_interval
  Step-Holds h (adds peer_id bits m) = h
  Step-Holds h (resets m) = h
  Step-Holds {m = a} h (updates peer_id index e) =
      (Returns-ok (IsUntouched a) (update_peer peer_id index a)
        (update_peer-untouched a peer_id index) e).file_eq
      ∙ h
  Step-Holds {m = a} h (removes peer_id e) =
      (Returns-ok (IsUntouched a) (remove_peer peer_id a) (remove_peer-untouched a peer_id)
        e).file_eq
      ∙ h
  Step-Holds {m = a} h (requests now later peer_id found e) =
      (Returns-ok (AskUntouched a) (next_request now later peer_id a)
        (next_request-untouched a now later peer_id) e).0.file_eq
      ∙ h
  Step-Holds {m = a} h (receives index offset content e) =
      Returns-ok Holds (block_received sha1 index offset content a).1
        (block_received-Holds index offset content a h) e
  Step-Holds h (refuses index offset content x m e) = h
  Step-Holds h (locks index offset m) = h
  Step-Holds {m = a} h (unlocks index offset content p found e) =
      Returns-ok Holds (receive_into sha1 offset content p a)
        (receive_into-Holds offset content p a h) e

  -- No call writes to an output file that has failed, and none repairs it.
  pub Reach-Holds : {m m' : PieceManager} → Holds m → Reach sha1 m m' → Holds m'
  Reach-Holds h here = h
  Reach-Holds h (next r s) = Step-Holds (Reach-Holds h r) s
