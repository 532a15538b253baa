-- ===== src/PieceManager/Endgame.antt =====
-- The end of a download: once no piece is wholly missing, nothing is requested any more.
use ufo_torrent.Common.{
  ℕ, Bool, true, false, [], Bytes, none, ok, ◌≡◌, refl, subst, ◌∙◌, inl, inr, arith, Bool-cases,
  Option-cases, Returns, Returns-ok, Returns-bind, Returns-any, Returns-after,
}
use ufo_torrent.Utils.{set_piece}
use ufo_torrent.Piece
use ufo_torrent.Piece.{Piece, Block, reset, piece_data, contents, is_hash_matching}
use ufo_torrent.PieceManager.State.{PieceManager, lookup, is_complete}
use ufo_torrent.PieceManager.Peers.{add_peer, update_peer, remove_peer}
use ufo_torrent.PieceManager.Requests.{next_request}
use ufo_torrent.PieceManager.Receive.{
  block_received, receive_into, check_piece, settle_piece, write, finish_piece, find_piece,
}
use ufo_torrent.PieceManager.Progress.{reset_interval}
use ufo_torrent.PieceManager.Steps.{
  Step, adds, updates, removes, requests, receives, refuses, locks, unlocks, resets, Reach, here,
  next,
}

-- The pieces not yet started stay as they are.
abbrev StaysMissing : PieceManager → PieceManager → Type 0
StaysMissing m f = f.missing_pieces ≡ m.missing_pieces

settle_piece-StaysMissing :
    (matching : Bool) (p : Piece) (m f : PieceManager)
    → StaysMissing m f
    → Returns (StaysMissing m) (settle_piece matching p f)
unfolding settle_piece write finish_piece
settle_piece-StaysMissing true p m f e =
    Returns-bind (StaysMissing m) (StaysMissing m) (write p f) _
      (Returns-bind (λ (b : Bytes). Unit {0}) (StaysMissing m) (piece_data p) _
        (Returns-any (piece_data p)) (λ b _. e))
      (λ w k. k)
settle_piece-StaysMissing false p m f e = e

check_piece-StaysMissing :
    (sha1 : Bytes → Bytes) (p : Piece) (m f : PieceManager)
    → StaysMissing m f
    → Returns (StaysMissing m) (check_piece sha1 p f)
unfolding check_piece
check_piece-StaysMissing sha1 p m f e = elim (Bool-cases (Piece.is_complete p)) [
  | inl done ↦
      rw (done, check_piece)
        (Returns-bind (λ (b : Bool). Unit {0}) (StaysMissing m) (is_hash_matching sha1 p) _
          (Returns-any (is_hash_matching sha1 p)) (λ b _. settle_piece-StaysMissing b p m f e))
  | inr more ↦ rw (more, check_piece) e
]

receive_into-StaysMissing :
    (sha1 : Bytes → Bytes) (offset : ℕ) (content : Bytes) (p : Piece) (m f : PieceManager)
    → StaysMissing m f
    → Returns (StaysMissing m) (receive_into sha1 offset content p f)
unfolding receive_into
receive_into-StaysMissing sha1 offset content p m f e =
    Returns-after (StaysMissing m) (Piece.block_received offset content p) _
      (λ q. check_piece-StaysMissing sha1 q m _ e)

block_received-StaysMissing :
    (sha1 : Bytes → Bytes) (i offset : ℕ) (content : Bytes) (m : PieceManager)
    → Returns (StaysMissing m) (block_received sha1 i offset content m).1
unfolding block_received
block_received-StaysMissing sha1 i offset content m =
    elim (Option-cases (find_piece i m.ongoing_pieces)) [
      | inl unknown ↦ rw (unknown, block_received) tt
      | inr (p, found) ↦
          rw (found, block_received) (receive_into-StaysMissing sha1 offset content p m _ refl)
    ]

update_peer-StaysMissing :
    (peer_id : Bytes) (index : ℕ) (m : PieceManager)
    → Returns (StaysMissing m) (update_peer peer_id index m)
unfolding update_peer
update_peer-StaysMissing peer_id index m = elim (Option-cases (lookup peer_id m.peers)) [
  | inl unknown ↦ rw (unknown, update_peer) tt
  | inr (bits, known) ↦
      rw (known, update_peer)
        (Returns-bind (λ (b : Bytes). Unit {0}) (StaysMissing m) (set_piece bits index) _
          (Returns-any (set_piece bits index)) (λ b _. refl))
]

remove_peer-StaysMissing :
    (peer_id : Bytes) (m : PieceManager) → Returns (StaysMissing m) (remove_peer peer_id m)
unfolding remove_peer
remove_peer-StaysMissing peer_id m = elim (Bool-cases (is_complete m)) [
  | inl done ↦ rw (done, remove_peer) refl
  | inr more ↦
      rw (more, remove_peer)
        (elim (Option-cases (lookup peer_id m.peers)) [
          | inl unknown ↦ rw (unknown, remove_peer) tt
          | inr (bits, known) ↦ rw (known, remove_peer) refl
        ])
]

next_request-none :
    (now later : ℕ) (peer_id : Bytes) (m : PieceManager)
    → m.missing_pieces ≡ []
    → next_request now later peer_id m ≡ ok (none, m)
unfolding next_request
next_request-none now later peer_id m e = ground (arith, e)

Step-missing :
    (sha1 : Bytes → Bytes) {m m' : PieceManager}
    → m.missing_pieces ≡ []
    → Step sha1 m m'
    → m'.missing_pieces ≡ []
unfolding add_peer block_received reset_interval
Step-missing sha1 h (adds peer_id bits m) = h
Step-missing sha1 h (resets m) = h
Step-missing sha1 {m = a} h (updates peer_id index e) =
    Returns-ok (StaysMissing a) (update_peer peer_id index a)
      (update_peer-StaysMissing peer_id index a) e
    ∙ h
Step-missing sha1 {m = a} h (removes peer_id e) =
    Returns-ok (StaysMissing a) (remove_peer peer_id a) (remove_peer-StaysMissing peer_id a) e ∙ h
Step-missing sha1 {m = a} {m' = b} h (requests now later peer_id block e) =
    let same : a ≡ b = cc (next_request-none now later peer_id a h, e) in
    subst (λ (f : PieceManager). f.missing_pieces ≡ []) same h
Step-missing sha1 {m = a} h (receives index offset content e) =
    Returns-ok (StaysMissing a) (block_received sha1 index offset content a).1
      (block_received-StaysMissing sha1 index offset content a) e
    ∙ h
Step-missing sha1 h (refuses index offset content x m e) = h
Step-missing sha1 h (locks index offset m) = h
Step-missing sha1 {m = a} h (unlocks index offset content p found e) =
    Returns-ok (StaysMissing a) (receive_into sha1 offset content p a)
      (receive_into-StaysMissing sha1 offset content p a a refl) e
    ∙ h

Reach-missing :
    (sha1 : Bytes → Bytes) {m m' : PieceManager}
    → m.missing_pieces ≡ []
    → Reach sha1 m m'
    → m'.missing_pieces ≡ []
Reach-missing sha1 h here = h
Reach-missing sha1 h (next r s) = Step-missing sha1 (Reach-missing sha1 h r) s

-- Once every piece has been started, `nextRequest` gives no block to anyone, after any further history, whatever blocks the ongoing pieces still lack or a failed hash has reset.
pub Reach-next_request-none :
    (sha1 : Bytes → Bytes) {m m' : PieceManager} (now later : ℕ) (peer_id : Bytes)
    → m.missing_pieces ≡ []
    → Reach sha1 m m'
    → next_request now later peer_id m' ≡ ok (none, m')
Reach-next_request-none sha1 {m} {m'} now later peer_id h r =
    next_request-none now later peer_id m' (Reach-missing sha1 h r)
