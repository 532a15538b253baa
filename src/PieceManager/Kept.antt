-- ===== src/PieceManager/Kept.antt =====
-- The requests move pieces between the lists and lose none.
use ufo_torrent.Common.{
  ℕ, ◌+◌, ◌≤◌, List, [], ◌∷◌, ◌++◌, Bytes, Option, none, some, is_empty, count, ok, ◌≡◌, refl, inl,
  inr, arith, Bool-cases, count-append, Returns, Returns-bind, Returns-any,
}
use ufo_torrent.Piece
use ufo_torrent.Piece.{Piece, Block, reset}
use ufo_torrent.PieceManager.State.{PieceManager, PendingRequest, lookup}
use ufo_torrent.PieceManager.Requests.{
  next_ongoing, request_from, request_new, request_rarest, next_request, expired_request,
  replace_piece, get_rarest_piece,
}
use ufo_torrent.PieceManager.Choice.{
  indices, indices-append, indices-replace_piece, count-remove_piece, indices-next_ongoing,
  Among-count, IsChoice, get_rarest_piece-IsChoice,
}

-- In how many places the piece `i` stands.
abbrev pub held : PieceManager → ℕ → ℕ
held m i =
    count i (indices m.missing_pieces)
    + (count i (indices m.ongoing_pieces) + count i (indices m.have_pieces))

abbrev pub IsDistinct : PieceManager → Type 0
IsDistinct m = (i : ℕ) → held m i ≤ 1

-- The pieces stand in as many places as before.
pub record Keeps (m m' : PieceManager) : Type 0 where
  pub same : (i : ℕ) → held m' i ≡ held m i
  pub total : m'.total_pieces ≡ m.total_pieces

pub Keeps-choice :
    (bits : Bytes) (m : PieceManager) (p : Piece) (m' : PieceManager)
    → IsDistinct m
    → IsChoice bits m (p, m')
    → Keeps m m'
Keeps-choice bits m p m' d c = rw c.moved (record {
  same = λ i.
      rw
        (
          indices-append m.ongoing_pieces (p ∷ []),
          count-append i (indices m.ongoing_pieces) (p.index ∷ []),
          count-remove_piece i p.index m.missing_pieces,
        )
        (ground (arith, Among-count p m.missing_pieces c.was_missing, d p.index));
  total = refl;
})

pub Keeps-replace :
    (m m' : PieceManager) (p : Piece)
    → Keeps m m'
    → Keeps m (record m' { ongoing_pieces = replace_piece p m'.ongoing_pieces })
Keeps-replace m m' p k = record {
  same = λ i. rw (indices-replace_piece p m'.ongoing_pieces) (k.same i);
  total = k.total;
}

Keeps-request_rarest :
    (bits : Bytes) (m : PieceManager)
    → IsDistinct m
    → Returns (λ (r : Option Block × PieceManager). Keeps m r.1) (request_rarest bits m)
unfolding request_rarest
Keeps-request_rarest bits m d =
    Returns-bind (IsChoice bits m) (λ r. Keeps m r.1) (get_rarest_piece bits m) _
      (get_rarest_piece-IsChoice bits m)
      λ (p, m') c. requested p m' (Piece.next_request p) (Keeps-choice bits m p m' d c)
  where
    requested :
        (p : Piece) (m' : PieceManager) (o : Option (Block × Piece))
        → Keeps m m'
        → Returns
            (λ (r : Option Block × PieceManager). Keeps m r.1)
            (elim o [
              | none ↦ ok (none, m')
              | some (b, p') ↦
                  ok (some b, record m' { ongoing_pieces = replace_piece p' m'.ongoing_pieces })
            ])
    requested p m' none k = k
    requested p m' (some (b, p')) k = Keeps-replace m m' p' k

Keeps-request_new :
    (now : ℕ) (bits : Bytes) (m : PieceManager)
    → IsDistinct m
    → Returns (λ (r : Option Block × PieceManager). Keeps m r.1) (request_new now bits m)
unfolding request_new
Keeps-request_new now bits m d =
    Returns-bind (λ r. indices r.1 ≡ indices m.ongoing_pieces) (λ r. Keeps m r.1)
      (next_ongoing bits m.ongoing_pieces) _ (indices-next_ongoing bits m.ongoing_pieces)
      λ (found, ongoing) e. requested found ongoing e
  where
    requested :
        (found : Option Block) (ongoing : List Piece)
        → indices ongoing ≡ indices m.ongoing_pieces
        → Returns
            (λ (r : Option Block × PieceManager). Keeps m r.1)
            (elim found [
              | none ↦ request_rarest bits m
              | some b ↦ ok (
                some b,
                record m {
                  ongoing_pieces = ongoing;
                  pending_requests =
                      m.pending_requests ++ (record { block = b; timestamp = now } ∷ []);
                },
              )
            ])
    requested none ongoing e = Keeps-request_rarest bits m d
    requested (some b) ongoing e = record { same = λ i. rw e; total = refl }

Keeps-request_from :
    (now later : ℕ) (bits : Bytes) (m : PieceManager)
    → IsDistinct m
    → Returns (λ (r : Option Block × PieceManager). Keeps m r.1) (request_from now later bits m)
unfolding request_from
Keeps-request_from now later bits m d =
    Returns-bind (λ (r : Option Block × List PendingRequest). Unit {0}) (λ r. Keeps m r.1)
      (expired_request now bits m.pending_requests) _
      (Returns-any (expired_request now bits m.pending_requests))
      λ (expired, pending) _. requested expired pending
  where
    requested :
        (expired : Option Block) (pending : List PendingRequest)
        → Returns
            (λ (r : Option Block × PieceManager). Keeps m r.1)
            (elim expired [
              | none ↦ request_new later bits m
              | some b ↦ ok (some b, record m { pending_requests = pending })
            ])
    requested none pending = Keeps-request_new later bits m d
    requested (some b) pending = record { same = λ i. refl; total = refl }

pub Keeps-next_request :
    (now later : ℕ) (peer_id : Bytes) (m : PieceManager)
    → IsDistinct m
    → Returns (λ (r : Option Block × PieceManager). Keeps m r.1) (next_request now later peer_id m)
unfolding next_request
Keeps-next_request now later peer_id m d = elim (Bool-cases (is_empty m.missing_pieces)) [
  | inl none_missing ↦ rw (none_missing, next_request) (record { same = λ i. refl; total = refl })
  | inr some_missing ↦ rw (some_missing, next_request) (known (lookup peer_id m.peers))
]
  where
    known :
        (o : Option Bytes)
        → Returns
            (λ (r : Option Block × PieceManager). Keeps m r.1)
            (elim o [ none ↦ ok (none, m) | some bits ↦ request_from now later bits m ])
    known none = record { same = λ i. refl; total = refl }
    known (some bits) = Keeps-request_from now later bits m d
