-- ===== src/PieceManager/Untouched.antt =====
-- Which calls leave the output file and the pieces that count as downloaded alone.
use ufo_torrent.Common.{
  ℕ, List, [], ◌∷◌, ◌++◌, Bytes, Option, none, some, is_empty, ok, ◌≡◌, refl, sym, subst, inl, inr,
  Option-cases, Returns, Returns-bind, Returns-after, Returns-if,
}
use ufo_torrent.Utils.{set_piece}
use ufo_torrent.Piece
use ufo_torrent.Piece.{Piece, Block, reset, piece_data, contents, is_hash_matching}
use ufo_torrent.PieceManager.State.{PieceManager, PendingRequest, lookup, is_complete}
use ufo_torrent.PieceManager.Peers.{update_peer, remove_peer}
use ufo_torrent.PieceManager.Requests.{
  next_request, request_from, request_new, request_rarest, next_ongoing, expired_request,
  replace_piece, get_rarest_piece,
}
use ufo_torrent.PieceManager.Choice.{IsChoice, get_rarest_piece-IsChoice}

-- Neither the file nor the pieces that count as downloaded change.
pub record IsUntouched (m m' : PieceManager) : Type 0 where
  pub file_eq : m'.downloaded_file ≡ m.downloaded_file
  pub have_eq : m'.have_pieces ≡ m.have_pieces
  pub size_eq : m'.piece_length ≡ m.piece_length

module _ (m : PieceManager) where
  abbrev pub untouched : IsUntouched m m
  untouched = record { file_eq = refl; have_eq = refl; size_eq = refl }

  abbrev pub AskUntouched : Option Block × PieceManager → Type 0
  AskUntouched r = IsUntouched m r.1 × (r.1.peers ≡ m.peers)

  request_rarest-untouched : (bits : Bytes) → Returns AskUntouched (request_rarest bits m)
  unfolding request_rarest
  request_rarest-untouched bits =
      Returns-bind (IsChoice bits m) AskUntouched (get_rarest_piece bits m) _
        (get_rarest_piece-IsChoice bits m)
        λ (p, m') c. requested m' (Piece.next_request p) (
          subst (λ m'. IsUntouched m m' × (m'.peers ≡ m.peers)) (sym c.moved)
            (record { file_eq = refl; have_eq = refl; size_eq = refl }, refl))
    where
      requested :
          (m' : PieceManager) (o : Option (Block × Piece))
          → IsUntouched m m' × (m'.peers ≡ m.peers)
          → Returns AskUntouched (elim o [
            | none ↦ ok (none, m')
            | some (b, p') ↦
                ok (some b, record m' { ongoing_pieces = replace_piece p' m'.ongoing_pieces })
          ])
      requested m' none u = u
      requested m' (some (b, p')) (u, same) =
          (record { file_eq = u.file_eq; have_eq = u.have_eq; size_eq = u.size_eq }, same)

  request_new-untouched : (now : ℕ) (bits : Bytes) → Returns AskUntouched (request_new now bits m)
  unfolding request_new
  request_new-untouched now bits =
      Returns-after AskUntouched (next_ongoing bits m.ongoing_pieces) _
        λ (found, ongoing). requested found ongoing
    where
      requested :
          (found : Option Block) (ongoing : List Piece)
          → Returns AskUntouched (elim found [
            | none ↦ request_rarest bits m
            | some b ↦ ok (
              some b,
              record m {
                ongoing_pieces = ongoing;
                pending_requests =
                    m.pending_requests ++ (record { block = b; timestamp = now } ∷ []);
              },
            )
          ])
      requested none ongoing = request_rarest-untouched bits
      requested (some b) ongoing = (record { file_eq = refl; have_eq = refl; size_eq = refl }, refl)

  request_from-untouched :
      (now later : ℕ) (bits : Bytes) → Returns AskUntouched (request_from now later bits m)
  unfolding request_from
  request_from-untouched now later bits =
      Returns-after AskUntouched (expired_request now bits m.pending_requests) _
        λ (expired, pending). requested expired pending
    where
      requested :
          (expired : Option Block) (pending : List PendingRequest)
          → Returns AskUntouched (elim expired [
            | none ↦ request_new later bits m
            | some b ↦ ok (some b, record m { pending_requests = pending })
          ])
      requested none pending = request_new-untouched later bits
      requested (some b) pending = (record { file_eq = refl; have_eq = refl; size_eq = refl }, refl)

  pub next_request-untouched :
      (now later : ℕ) (peer_id : Bytes) → Returns AskUntouched (next_request now later peer_id m)
  unfolding next_request
  next_request-untouched now later peer_id =
      Returns-if AskUntouched (is_empty m.missing_pieces) _ _ (untouched, refl)
        (elim (Option-cases (lookup peer_id m.peers)) [
          | inl unknown ↦ rw unknown (untouched, refl)
          | inr (bits, known) ↦ rw known (request_from-untouched now later bits)
        ])

  pub update_peer-untouched :
      (peer_id : Bytes) (index : ℕ) → Returns (IsUntouched m) (update_peer peer_id index m)
  unfolding update_peer
  update_peer-untouched peer_id index = elim (Option-cases (lookup peer_id m.peers)) [
    | inl unknown ↦ rw (unknown, update_peer) tt
    | inr (bits, known) ↦
        rw (known, update_peer)
          (Returns-after (IsUntouched m) (set_piece bits index) _
            (λ b. record { file_eq = refl; have_eq = refl; size_eq = refl }))
  ]

  pub remove_peer-untouched : (peer_id : Bytes) → Returns (IsUntouched m) (remove_peer peer_id m)
  unfolding remove_peer
  remove_peer-untouched peer_id =
      Returns-if (IsUntouched m) (is_complete m) _ _ untouched
        (elim (Option-cases (lookup peer_id m.peers)) [
          | inl unknown ↦ rw unknown tt
          | inr (bits, known) ↦ rw known (record { file_eq = refl; have_eq = refl; size_eq = refl })
        ])
