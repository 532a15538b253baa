-- ===== src/PieceManager/Requests.antt =====
-- `nextRequest` and its three helpers. Each reading of the clock is an argument.
use ufo_torrent.Common.{
  ℕ, ◌+◌, ◌-◌, ◌^◌, Bool, true, false, ◌&&◌, List, [], ◌∷◌, ◌++◌, Bytes, Option, none, some, ltb,
  leb, ◌==◌, if◌then◌else◌, is_empty, Outcome, ok, undefined, ◌>>=◌,
}
use ufo_torrent.Utils.{has_piece}
use ufo_torrent.Piece
use ufo_torrent.Piece.{Piece, Block}
use ufo_torrent.PieceManager.State.{PieceManager, PendingRequest, lookup}

abbrev pub max_pending_time : ℕ
max_pending_time = 10

-- The loop of `expiredRequest` at the time `now`, over the bit field of the peer.
unfoldable pub expired_request :
    ℕ → Bytes → List PendingRequest → Outcome (Option Block × List PendingRequest)
expired_request now bits [] = ok (none, [])
expired_request now bits (r ∷ rs) =
    let rest = expired_request now bits rs in
    has_piece bits r.block.piece >>= λ has.
    if has && leb (r.timestamp + max_pending_time) now
    then ok (some r.block, record r { timestamp = now } ∷ rs)
    else rest >>= λ (b, rs'). ok (b, r ∷ rs')

-- The body of the loop of `nextOngoing`, by whether the peer has the piece; `rest` is what the
-- later rounds give.
unfoldable pub pick_ongoing :
    Bool
    → Piece
    → List Piece
    → Outcome (Option Block × List Piece)
    → Outcome (Option Block × List Piece)
pick_ongoing false p ps rest = rest
pick_ongoing true p ps rest = elim (Piece.next_request p) [
  | none ↦ rest
  | some (b, p') ↦ ok (some b, p' ∷ ps)
]

-- The loop of `nextOngoing`: the first block that a piece of the peer still lacks.
unfoldable pub next_ongoing : Bytes → List Piece → Outcome (Option Block × List Piece)
unfolding pick_ongoing
next_ongoing bits [] = ok (none, [])
next_ongoing bits (p ∷ ps) =
    let rest = next_ongoing bits ps >>= λ (b, ps'). ok (b, p ∷ ps') in
    has_piece bits p.index >>= λ has. pick_ongoing has p ps rest

-- `pieceCount[piece] += 1` in a map ordered by the index of the piece.
unfoldable pub count_piece : Piece → List (Piece × ℕ) → List (Piece × ℕ)
count_piece p [] = (p, 1) ∷ []
count_piece p ((q, n) ∷ rest) =
    let later = count_piece p rest in
    if p.index == q.index
    then (q, n + 1) ∷ rest
    else if ltb p.index q.index
    then (p, 1) ∷ (q, n) ∷ rest
    else (q, n) ∷ later

-- The first loop of `getRarestPiece`.
unfoldable pub count_pieces : Bytes → List Piece → List (Piece × ℕ) → Outcome (List (Piece × ℕ))
unfolding count_piece
count_pieces bits [] counts = ok counts
count_pieces bits (p ∷ ps) counts = has_piece bits p.index >>= λ has.
    count_pieces bits ps (if has then count_piece p counts else counts)

-- The second loop; `rarest` starts uninitialised and `leastCount` at INT16_MAX.
unfoldable pub least_count : Option Piece → ℕ → List (Piece × ℕ) → Option Piece
least_count rarest least [] = rarest
least_count rarest least ((p, n) ∷ rest) =
    least_count (if ltb n least then some p else rarest) (if ltb n least then n else least) rest

-- `erase(remove(...))`. A piece is one object, known by its index.
unfoldable pub remove_piece : ℕ → List Piece → List Piece
remove_piece i [] = []
remove_piece i (p ∷ ps) = let rest = remove_piece i ps in if p.index == i then rest else p ∷ rest

-- `getRarestPiece`: the piece, and the manager in which it is ongoing. Where the peer has no
-- missing piece, the code goes on with an uninitialised pointer.
unfoldable pub get_rarest_piece : Bytes → PieceManager → Outcome (Piece × PieceManager)
unfolding count_pieces least_count remove_piece
get_rarest_piece bits m = do
  counts ← count_pieces bits m.missing_pieces []
  elim (least_count none (2 ^ 15 - 1) counts) [
    | none ↦ undefined
    | some p ↦ ok (
      p,
      record m {
        missing_pieces = remove_piece p.index m.missing_pieces;
        ongoing_pieces = m.ongoing_pieces ++ (p ∷ []);
      },
    )
  ]

-- A piece of the list takes the place of the one with its index.
unfoldable pub replace_piece : Piece → List Piece → List Piece
replace_piece p [] = []
replace_piece p (q ∷ qs) = (if q.index == p.index then p else q) ∷ replace_piece p qs

-- `getRarestPiece(peerId)->next_request()`.
unfoldable pub request_rarest : Bytes → PieceManager → Outcome (Option Block × PieceManager)
unfolding get_rarest_piece replace_piece
request_rarest bits m = do
  (p, m') ← get_rarest_piece bits m
  elim (Piece.next_request p) [
    | none ↦ ok (none, m')
    | some (b, p') ↦ ok (some b, record m' { ongoing_pieces = replace_piece p' m'.ongoing_pieces })
  ]

-- The second half of `nextRequest`, where no request has expired.
unfoldable pub request_new : ℕ → Bytes → PieceManager → Outcome (Option Block × PieceManager)
unfolding next_ongoing request_rarest
request_new now bits m = do
  (found, ongoing) ← next_ongoing bits m.ongoing_pieces
  elim found [
    | none ↦ request_rarest bits m
    | some b ↦ ok (
      some b,
      record m {
        ongoing_pieces = ongoing;
        pending_requests = m.pending_requests ++ (record { block = b; timestamp = now } ∷ []);
      },
    )
  ]

-- `nextRequest` for a peer with a bit field, with the readings of the clock in
-- `expiredRequest` and in `nextOngoing`.
unfoldable pub request_from : ℕ → ℕ → Bytes → PieceManager → Outcome (Option Block × PieceManager)
unfolding expired_request request_new
request_from now later bits m = do
  (expired, requests) ← expired_request now bits m.pending_requests
  elim expired [
    | none ↦ request_new later bits m
    | some b ↦ ok (some b, record m { pending_requests = requests })
  ]

-- `nextRequest`.
unfoldable pub next_request : ℕ → ℕ → Bytes → PieceManager → Outcome (Option Block × PieceManager)
unfolding request_from
next_request now later peer_id m =
    if is_empty m.missing_pieces then ok (none, m) else elim (lookup peer_id m.peers) [
      | none ↦ ok (none, m)
      | some bits ↦ request_from now later bits m
    ]
