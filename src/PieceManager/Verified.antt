-- ===== src/PieceManager/Verified.antt =====
-- Only data whose hash matches the torrent file counts as downloaded.
use ufo_torrent.Common.{
  ℕ, ◌+◌, Bool, true, false, not, ◌&&◌, List, [], ◌∷◌, ◌++◌, append_assoc, All, Bytes, ◌==◌, length,
  is_empty, ok, ◌≡◌, refl, subst, inl, inr, arith, Bool-cases, Option-cases, eq_of_beq,
  length-append, All-append, Returns, Returns-ok, Returns-self, Returns-bind, Returns-any,
  get_elem?-append,
}
use ufo_torrent.Utils.{set_piece, hex_decode}
use ufo_torrent.Piece
use ufo_torrent.Piece.{Piece, Block, reset, piece_data, contents, is_hash_matching}
use ufo_torrent.TorrentFile.{TorrentFile}
use ufo_torrent.PieceManager.State.{PieceManager, lookup, is_complete}
use ufo_torrent.PieceManager.Setup.{
  new_manager, new_piece, new_pieces, initiate_pieces, split_piece_hashes, get_total_file_size,
  read_piece_length,
}
use ufo_torrent.PieceManager.Peers.{add_peer, update_peer, remove_peer}
use ufo_torrent.PieceManager.Requests.{next_request}
use ufo_torrent.PieceManager.Receive.{
  block_received, receive_into, check_piece, settle_piece, write, finish_piece, find_piece,
  remove_request,
}
use ufo_torrent.PieceManager.Progress.{reset_interval}
use ufo_torrent.PieceManager.Steps.{
  Step, adds, updates, removes, requests, receives, refuses, locks, unlocks, resets, Reach, here,
  next,
}
use ufo_torrent.PieceManager.Labels.{
  All-remove_piece, All-replace_piece, find_piece-All, IsLabelled, IsVerified, IsSound,
  IsSound-next_request,
}

module _ (sha1 : Bytes → Bytes) (hashes : List Bytes) where
  -- What `block_received` of a piece keeps.
  block_received-IsLabelled :
      (offset : ℕ) (content : Bytes) (p : Piece)
      → Returns
          (λ (q : Piece). (q.index ≡ p.index) × (q.hash_value ≡ p.hash_value))
          (Piece.block_received offset content p)
  unfolding Piece.block_received
  block_received-IsLabelled offset content p = ground arith

  matching-IsVerified :
      (p : Piece) {b : Bool}
      → Piece.is_complete p ≡ true
      → is_hash_matching sha1 p ≡ ok b
      → b ≡ true
      → hex_decode (sha1 (contents p.blocks)) ≡ p.hash_value
  unfolding is_hash_matching piece_data
  matching-IsVerified p {b} done e yes_ = eq_of_beq _ _ (ground (arith, done, e, yes_))

  IsSound-settle_piece :
      (matching : Bool) (p : Piece) (f : PieceManager)
      → IsSound sha1 hashes f
      → IsLabelled sha1 hashes p
      → (matching ≡ true → IsVerified sha1 hashes p)
      → Returns (IsSound sha1 hashes) (settle_piece matching p f)
  unfolding settle_piece write finish_piece reset
  IsSound-settle_piece true p f s lab v =
      Returns-bind (IsSound sha1 hashes) (IsSound sha1 hashes) (write p f) _
        (Returns-bind (λ (b : Bytes). Unit {0}) (IsSound sha1 hashes) (piece_data p) _
          (Returns-any (piece_data p))
          λ b _. record {
            missing_labelled = s.missing_labelled;
            ongoing_labelled = s.ongoing_labelled;
            have_verified = s.have_verified;
          })
        (λ w t. record {
          missing_labelled = t.missing_labelled;
          ongoing_labelled =
              All-remove_piece (IsLabelled sha1 hashes) p.index w.ongoing_pieces t.ongoing_labelled;
          have_verified =
              All-append (IsVerified sha1 hashes) w.have_pieces (p ∷ []) t.have_verified
                (v refl, tt);
        })
  IsSound-settle_piece false p f s lab v = record {
    missing_labelled = s.missing_labelled;
    ongoing_labelled =
        All-replace_piece (IsLabelled sha1 hashes) (reset p) f.ongoing_pieces lab
          s.ongoing_labelled;
    have_verified = s.have_verified;
  }

  IsSound-check_piece :
      (p : Piece) (f : PieceManager)
      → IsSound sha1 hashes f
      → IsLabelled sha1 hashes p
      → Returns (IsSound sha1 hashes) (check_piece sha1 p f)
  unfolding check_piece
  IsSound-check_piece p f s lab = elim (Bool-cases (Piece.is_complete p)) [
    | inl done ↦
        rw (done, check_piece)
          (Returns-bind (λ b. is_hash_matching sha1 p ≡ ok b) (IsSound sha1 hashes)
            (is_hash_matching sha1 p) _ (Returns-self (is_hash_matching sha1 p))
            (λ b e.
              IsSound-settle_piece b p f s lab (λ y. (lab, done, matching-IsVerified p done e y))))
    | inr more ↦ rw (more, check_piece) s
  ]

  IsSound-receive_into :
      (offset : ℕ) (content : Bytes) (p : Piece) (m : PieceManager)
      → IsLabelled sha1 hashes p
      → IsSound sha1 hashes m
      → Returns (IsSound sha1 hashes) (receive_into sha1 offset content p m)
  unfolding receive_into
  IsSound-receive_into offset content p m of_p s =
      Returns-bind (λ (q : Piece). (q.index ≡ p.index) × (q.hash_value ≡ p.hash_value))
        (IsSound sha1 hashes) (Piece.block_received offset content p) _
        (block_received-IsLabelled offset content p)
        λ q same.
          let lab : IsLabelled sha1 hashes q = rw (same.0, same.1) of_p in
          IsSound-check_piece q _
            (record {
              missing_labelled = s.missing_labelled;
              ongoing_labelled =
                  All-replace_piece (IsLabelled sha1 hashes) q m.ongoing_pieces lab
                    s.ongoing_labelled;
              have_verified = s.have_verified;
            })
            lab

  IsSound-locked :
      (i offset : ℕ) (m : PieceManager)
      → IsSound sha1 hashes m
      → IsSound sha1 hashes
          (record m { pending_requests = remove_request i offset m.pending_requests })
  IsSound-locked i offset m s = record {
    missing_labelled = s.missing_labelled;
    ongoing_labelled = s.ongoing_labelled;
    have_verified = s.have_verified;
  }

  IsSound-block_received :
      (i offset : ℕ) (content : Bytes) (m : PieceManager)
      → IsSound sha1 hashes m
      → Returns (IsSound sha1 hashes) (block_received sha1 i offset content m).1
  unfolding block_received
  IsSound-block_received i offset content m s =
      elim (Option-cases (find_piece i m.ongoing_pieces)) [
        | inl unknown ↦ rw (unknown, block_received) tt
        | inr (p, found) ↦
            rw (found, block_received)
              (IsSound-receive_into offset content p _
                (find_piece-All (IsLabelled sha1 hashes) i m.ongoing_pieces s.ongoing_labelled
                  found)
                (IsSound-locked i offset m s))
      ]

  IsSound-update_peer :
      (peer_id : Bytes) (index : ℕ) (m : PieceManager)
      → IsSound sha1 hashes m
      → Returns (IsSound sha1 hashes) (update_peer peer_id index m)
  unfolding update_peer
  IsSound-update_peer peer_id index m s = elim (Option-cases (lookup peer_id m.peers)) [
    | inl unknown ↦ rw (unknown, update_peer) tt
    | inr (bits, known) ↦
        rw (known, update_peer)
          (Returns-bind (λ (b : Bytes). Unit {0}) (IsSound sha1 hashes) (set_piece bits index) _
            (Returns-any (set_piece bits index))
            (λ b _. record {
              missing_labelled = s.missing_labelled;
              ongoing_labelled = s.ongoing_labelled;
              have_verified = s.have_verified;
            }))
  ]

  IsSound-remove_peer :
      (peer_id : Bytes) (m : PieceManager)
      → IsSound sha1 hashes m
      → Returns (IsSound sha1 hashes) (remove_peer peer_id m)
  unfolding remove_peer
  IsSound-remove_peer peer_id m s = elim (Bool-cases (is_complete m)) [
    | inl done ↦ rw (done, remove_peer) s
    | inr more ↦
        rw (more, remove_peer)
          (elim (Option-cases (lookup peer_id m.peers)) [
            | inl unknown ↦ rw (unknown, remove_peer) tt
            | inr (bits, known) ↦
                rw (known, remove_peer)
                  (record {
                    missing_labelled = s.missing_labelled;
                    ongoing_labelled = s.ongoing_labelled;
                    have_verified = s.have_verified;
                  })
          ])
  ]

  Step-IsSound :
      {m m' : PieceManager} → IsSound sha1 hashes m → Step sha1 m m' → IsSound sha1 hashes m'
  unfolding add_peer block_received reset_interval
  Step-IsSound s (adds peer_id bits m) = record {
    missing_labelled = s.missing_labelled;
    ongoing_labelled = s.ongoing_labelled;
    have_verified = s.have_verified;
  }
  Step-IsSound s (resets m) = record {
    missing_labelled = s.missing_labelled;
    ongoing_labelled = s.ongoing_labelled;
    have_verified = s.have_verified;
  }
  Step-IsSound {m = a} s (updates peer_id index e) =
      Returns-ok (IsSound sha1 hashes) (update_peer peer_id index a)
        (IsSound-update_peer peer_id index a s) e
  Step-IsSound {m = a} s (removes peer_id e) =
      Returns-ok (IsSound sha1 hashes) (remove_peer peer_id a) (IsSound-remove_peer peer_id a s) e
  Step-IsSound {m = a} s (requests now later peer_id b e) =
      Returns-ok (λ r. IsSound sha1 hashes r.1) (next_request now later peer_id a)
        (IsSound-next_request sha1 hashes now later peer_id a s) e
  Step-IsSound {m = a} s (receives index offset content e) =
      Returns-ok (IsSound sha1 hashes) (block_received sha1 index offset content a).1
        (IsSound-block_received index offset content a s) e
  Step-IsSound s (refuses index offset content x m e) = IsSound-locked index offset m s
  Step-IsSound s (locks index offset m) = IsSound-locked index offset m s
  Step-IsSound {m = a} s (unlocks index offset content p found e) =
      Returns-ok (IsSound sha1 hashes) (receive_into sha1 offset content p a)
        (IsSound-receive_into offset content p a
          (find_piece-All (IsLabelled sha1 hashes) index a.ongoing_pieces s.ongoing_labelled found)
          s)
        e

  Reach-IsSound :
      {m m' : PieceManager} → IsSound sha1 hashes m → Reach sha1 m m' → IsSound sha1 hashes m'
  Reach-IsSound s here = s
  Reach-IsSound s (next r st) = Step-IsSound (Reach-IsSound s r) st

new_pieces-IsLabelled :
    (sha1 : Bytes → Bytes) (before hashes : List Bytes) (total total_length piece_length start : ℕ)
    → start ≡ length before
    → All
        (IsLabelled sha1 (before ++ hashes))
        (new_pieces total total_length piece_length start hashes)
unfolding new_pieces new_piece
new_pieces-IsLabelled sha1 before [] total total_length piece_length start e = tt
new_pieces-IsLabelled sha1 before (h ∷ hs) total total_length piece_length start e = (
  rw e (get_elem?-append before h hs),
  subst (λ l. All (IsLabelled sha1 l) (new_pieces total total_length piece_length (start + 1) hs))
      (append_assoc before (h ∷ []) hs)
      (new_pieces-IsLabelled sha1 (before ++ (h ∷ [])) hs total total_length piece_length
        (start + 1) (omega (arith, length-append before (h ∷ [])))),
)

initiate_pieces-IsLabelled :
    (sha1 : Bytes → Bytes) (total_length piece_length : ℕ) (hashes : List Bytes)
    → Returns (All (IsLabelled sha1 hashes)) (initiate_pieces total_length piece_length hashes)
unfolding initiate_pieces
initiate_pieces-IsLabelled sha1 total_length piece_length hashes =
    elim (Bool-cases (not (is_empty hashes) && piece_length == 0)) [
      | inl bad ↦ rw (bad, initiate_pieces) tt
      | inr fine ↦
          rw (fine, initiate_pieces)
            (new_pieces-IsLabelled sha1 [] hashes (length hashes) total_length piece_length 0 refl)
    ]

new_manager-IsSound :
    (sha1 : Bytes → Bytes) (opens : Bool) (t : TorrentFile) (maximum_connections now : ℕ)
    → Returns
        (IsSound sha1 (split_piece_hashes t.info.pieces))
        (new_manager opens t maximum_connections now)
unfolding new_manager initiate_pieces
new_manager-IsSound sha1 opens t maximum_connections now =
    let hashes = split_piece_hashes t.info.pieces in
    Returns-bind (λ (n : ℕ). Unit {0}) (IsSound sha1 hashes) (read_piece_length t) _
      (Returns-any (read_piece_length t))
      λ n _.
        Returns-bind (λ (n : ℕ). Unit {0}) (IsSound sha1 hashes) (get_total_file_size t) _
          (Returns-any (get_total_file_size t))
          λ total _.
            Returns-bind (All (IsLabelled sha1 hashes)) (IsSound sha1 hashes)
              (initiate_pieces total n hashes) _ (initiate_pieces-IsLabelled sha1 total n hashes)
              (λ ps lab. record {
                missing_labelled = lab;
                ongoing_labelled = tt;
                have_verified = tt;
              })

-- From the constructor on, through any history of calls, in which no thread goes on in `blockReceived` with a piece that another one has finished: each piece that counts as downloaded has all its blocks, and the SHA-1 of its data is the hash that the torrent file gives for its index.
pub Reach-IsVerified :
    (sha1 : Bytes → Bytes) (opens : Bool) (t : TorrentFile) (maximum_connections now : ℕ)
    {m m' : PieceManager}
    → new_manager opens t maximum_connections now ≡ ok m
    → Reach sha1 m m'
    → All (IsVerified sha1 (split_piece_hashes t.info.pieces)) m'.have_pieces
Reach-IsVerified sha1 opens t maximum_connections now {m} {m'} e r =
    (Reach-IsSound sha1 (split_piece_hashes t.info.pieces)
      (Returns-ok (IsSound sha1 (split_piece_hashes t.info.pieces))
        (new_manager opens t maximum_connections now)
        (new_manager-IsSound sha1 opens t maximum_connections now) e)
      r).have_verified
