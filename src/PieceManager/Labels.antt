-- ===== src/PieceManager/Labels.antt =====
-- The hash that each piece carries, and what the requests do to it.
use ufo_torrent.Common.{
  ℕ, true, List, [], ◌∷◌, ◌++◌, All, Bytes, Option, none, some, ◌==◌, is_empty, get_elem?, ok, ◌≡◌,
  subst, inl, inr, arith, Bool-cases, Option-cases, All-append, Returns, Returns-bind, Returns-any,
}
use ufo_torrent.Utils.{hex_decode}
use ufo_torrent.Piece
use ufo_torrent.Piece.{Piece, Block, reset, piece_data, contents, is_hash_matching}
use ufo_torrent.PieceManager.State.{PieceManager, PendingRequest, lookup}
use ufo_torrent.PieceManager.Requests.{
  next_ongoing, request_from, request_new, request_rarest, next_request, expired_request,
  remove_piece, replace_piece, get_rarest_piece,
}
use ufo_torrent.PieceManager.Receive.{find_piece}
use ufo_torrent.PieceManager.Choice.{
  Among, IsChoice, get_rarest_piece-IsChoice, next_ongoing_induction,
}

module _ (Q : Piece → Type 0) where
  pub All-remove_piece : (i : ℕ) (ps : List Piece) → All Q ps → All Q (remove_piece i ps)
  unfolding remove_piece
  All-remove_piece i [] h = tt
  All-remove_piece i (p ∷ ps) h = elim (Bool-cases (p.index == i)) [
    | inl same ↦ rw (same, remove_piece) (All-remove_piece i ps h.1)
    | inr other ↦ rw (other, remove_piece) (h.0, All-remove_piece i ps h.1)
  ]

  pub All-replace_piece :
      (p : Piece) (qs : List Piece) → Q p → All Q qs → All Q (replace_piece p qs)
  unfolding replace_piece
  All-replace_piece p [] q h = tt
  All-replace_piece p (r ∷ rs) q h = elim (Bool-cases (r.index == p.index)) [
    | inl same ↦ rw same (q, All-replace_piece p rs q h.1)
    | inr other ↦ rw other (h.0, All-replace_piece p rs q h.1)
  ]

  of_Among : (p : Piece) (ps : List Piece) → Among p ps → All Q ps → Q p
  of_Among p [] m h = absurd m
  of_Among p (q ∷ qs) (inl e) h = rw e h.0
  of_Among p (q ∷ qs) (inr m) h = of_Among p qs m h.1

  pub find_piece-All :
      (i : ℕ) (ps : List Piece) {p : Piece} → All Q ps → find_piece i ps ≡ some p → Q p
  unfolding find_piece
  find_piece-All i [] h e = cc
  find_piece-All i (q ∷ qs) {p} h e = elim (Bool-cases (q.index == i)) [
    | inl same ↦ subst Q (ground (arith, same, e)) h.0
    | inr other ↦ find_piece-All i qs {p = p} h.1 (ground (arith, other, e))
  ]

module _ (sha1 : Bytes → Bytes) (hashes : List Bytes) where
  -- The piece carries the hash that the torrent file has for its index.
  abbrev pub IsLabelled : Piece → Type 0
  IsLabelled p = get_elem? hashes p.index ≡ some p.hash_value

  -- Every block of the piece is there, and the hash of the data is that of the torrent file.
  abbrev pub IsVerified : Piece → Type 0
  IsVerified p =
      IsLabelled p
      × (Piece.is_complete p ≡ true)
      × (hex_decode (sha1 (contents p.blocks)) ≡ p.hash_value)

  pub record IsSound (m : PieceManager) : Type 0 where
    pub missing_labelled : All IsLabelled m.missing_pieces
    pub ongoing_labelled : All IsLabelled m.ongoing_pieces
    pub have_verified : All IsVerified m.have_pieces

  next_request-IsLabelled :
      (p : Piece) {b : Block} {p' : Piece}
      → Piece.next_request p ≡ some (b, p')
      → IsLabelled p
      → IsLabelled p'
  unfolding Piece.next_request
  next_request-IsLabelled p {b} {p'} e h =
      let i : p'.index ≡ p.index = ground arith in
      let v : p'.hash_value ≡ p.hash_value = ground arith in rw (i, v) h

  IsSound-request_rarest :
      (bits : Bytes) (m : PieceManager)
      → IsSound m
      → Returns (λ (r : Option Block × PieceManager). IsSound r.1) (request_rarest bits m)
  unfolding request_rarest
  IsSound-request_rarest bits m s =
      Returns-bind (IsChoice bits m) (λ r. IsSound r.1) (get_rarest_piece bits m) _
        (get_rarest_piece-IsChoice bits m)
        λ (p, m') c.
          let lab = of_Among IsLabelled p m.missing_pieces c.was_missing s.missing_labelled in
          let s' : IsSound m' = rw c.moved (record {
            missing_labelled =
                All-remove_piece IsLabelled p.index m.missing_pieces s.missing_labelled;
            ongoing_labelled =
                All-append IsLabelled m.ongoing_pieces (p ∷ []) s.ongoing_labelled (lab, tt);
            have_verified = s.have_verified;
          }) in
          elim (Option-cases (Piece.next_request p)) [
            | inl full ↦ rw full s'
            | inr ((b, p'), found) ↦ rw found (record {
              missing_labelled = s'.missing_labelled;
              ongoing_labelled =
                  All-replace_piece IsLabelled p' m'.ongoing_pieces
                    (next_request-IsLabelled p found lab) s'.ongoing_labelled;
              have_verified = s'.have_verified;
            })
          ]

  next_ongoing-IsLabelled :
      (bits : Bytes) (ps : List Piece)
      → Returns
          (λ (r : Option Block × List Piece). All IsLabelled ps → All IsLabelled r.1)
          (next_ongoing bits ps)
  next_ongoing-IsLabelled bits ps =
      next_ongoing_induction (λ ps r. All IsLabelled ps → All IsLabelled r.1) (λ h. h)
        (λ p ps r k h. (h.0, k h.1)) bits
        (λ p ps b p' has found h. (next_request-IsLabelled p found h.0, h.1)) ps

  IsSound-request_new :
      (now : ℕ) (bits : Bytes) (m : PieceManager)
      → IsSound m
      → Returns (λ (r : Option Block × PieceManager). IsSound r.1) (request_new now bits m)
  unfolding request_new
  IsSound-request_new now bits m s =
      Returns-bind (λ r. All IsLabelled m.ongoing_pieces → All IsLabelled r.1) (λ r. IsSound r.1)
        (next_ongoing bits m.ongoing_pieces) _ (next_ongoing-IsLabelled bits m.ongoing_pieces)
        λ (found, ongoing) k. requested found ongoing (k s.ongoing_labelled)
    where
      requested :
          (found : Option Block) (ongoing : List Piece)
          → All IsLabelled ongoing
          → Returns
              (λ (r : Option Block × PieceManager). IsSound r.1)
              (elim found [
                | none ↦ request_rarest bits m
                | some b ↦ ok (
                  some b,
                  record m {
                    ongoing_pieces = ongoing;
                    pending_requests =
                        m.pending_requests ++ (record { block = b; timestamp = now } ∷ []);
                  },
                )
              ])
      requested none ongoing h = IsSound-request_rarest bits m s
      requested (some b) ongoing h = record {
        missing_labelled = s.missing_labelled;
        ongoing_labelled = h;
        have_verified = s.have_verified;
      }

  IsSound-request_from :
      (now later : ℕ) (bits : Bytes) (m : PieceManager)
      → IsSound m
      → Returns (λ (r : Option Block × PieceManager). IsSound r.1) (request_from now later bits m)
  unfolding request_from
  IsSound-request_from now later bits m s =
      Returns-bind (λ (r : Option Block × List PendingRequest). Unit {0}) (λ r. IsSound r.1)
        (expired_request now bits m.pending_requests) _
        (Returns-any (expired_request now bits m.pending_requests))
        λ (expired, pending) _. requested expired pending
    where
      requested :
          (expired : Option Block) (pending : List PendingRequest)
          → Returns
              (λ (r : Option Block × PieceManager). IsSound r.1)
              (elim expired [
                | none ↦ request_new later bits m
                | some b ↦ ok (some b, record m { pending_requests = pending })
              ])
      requested none pending = IsSound-request_new later bits m s
      requested (some b) pending = record {
        missing_labelled = s.missing_labelled;
        ongoing_labelled = s.ongoing_labelled;
        have_verified = s.have_verified;
      }

  pub IsSound-next_request :
      (now later : ℕ) (peer_id : Bytes) (m : PieceManager)
      → IsSound m
      → Returns
          (λ (r : Option Block × PieceManager). IsSound r.1)
          (next_request now later peer_id m)
  unfolding next_request
  IsSound-next_request now later peer_id m s = elim (Bool-cases (is_empty m.missing_pieces)) [
    | inl none_missing ↦ rw (none_missing, next_request) s
    | inr some_missing ↦
        rw (some_missing, next_request)
          (elim (Option-cases (lookup peer_id m.peers)) [
            | inl unknown ↦ rw unknown s
            | inr (bits, known) ↦ rw known (IsSound-request_from now later bits m s)
          ])
  ]
