-- ===== src/PieceManager/Partition.antt =====
-- Every piece of the torrent is missing, ongoing or had, and only one of these.
use ufo_torrent.Common.{
  ℕ, ◌+◌, ◌≤◌, Bool, true, false, not, ◌&&◌, List, [], ◌∷◌, Bytes, ltb, leb, ◌==◌, if◌then◌else◌,
  length, is_empty, count, ok, ◌≡◌, refl, ◌∙◌, inl, inr, arith, Bool-cases, Option-cases,
  count-append, Returns, Returns-ok, Returns-bind, Returns-any,
}
use ufo_torrent.Utils.{set_piece}
use ufo_torrent.Piece
use ufo_torrent.Piece.{Piece, Block, reset, piece_data, is_hash_matching, fill_block}
use ufo_torrent.TorrentFile.{TorrentFile}
use ufo_torrent.PieceManager.State.{PieceManager, lookup, is_complete}
use ufo_torrent.PieceManager.Setup.{
  new_manager, new_pieces, initiate_pieces, split_piece_hashes, get_total_file_size,
  read_piece_length,
}
use ufo_torrent.PieceManager.Peers.{add_peer, update_peer, remove_peer}
use ufo_torrent.PieceManager.Requests.{next_request, replace_piece}
use ufo_torrent.PieceManager.Receive.{
  block_received, receive_into, check_piece, settle_piece, write, finish_piece, find_piece,
}
use ufo_torrent.PieceManager.Progress.{reset_interval}
use ufo_torrent.PieceManager.Steps.{
  Step, adds, updates, removes, requests, receives, refuses, locks, unlocks, resets, Reach, here,
  next,
}
use ufo_torrent.PieceManager.Choice.{
  indices, indices-append, indices-replace_piece, count-remove_piece, find_piece-index,
}
use ufo_torrent.PieceManager.Kept.{held, IsDistinct, Keeps, Keeps-next_request}

-- The same lists of pieces, but for the data in the ongoing ones.
record SameIndices (m f : PieceManager) : Type 0 where
  missing_eq : f.missing_pieces ≡ m.missing_pieces
  ongoing_eq : indices f.ongoing_pieces ≡ indices m.ongoing_pieces
  have_eq : f.have_pieces ≡ m.have_pieces
  total_eq : f.total_pieces ≡ m.total_pieces

Keeps-same : (m f : PieceManager) → SameIndices m f → Keeps m f
Keeps-same m f s = record {
  same = λ i. rw (s.missing_eq, s.ongoing_eq, s.have_eq);
  total = s.total_eq;
}

Keeps-finish_piece :
    (m f : PieceManager) (p : Piece)
    → IsDistinct m
    → 1 ≤ count p.index (indices m.ongoing_pieces)
    → SameIndices m f
    → Keeps m (finish_piece p f)
unfolding finish_piece
Keeps-finish_piece m f p d h s = record {
  same = λ i.
      rw
        (
          indices-append f.have_pieces (p ∷ []),
          count-append i (indices f.have_pieces) (p.index ∷ []),
          count-remove_piece i p.index f.ongoing_pieces,
          s.missing_eq,
          s.have_eq,
          s.ongoing_eq,
        )
        (ground (arith, h, d p.index));
  total = s.total_eq;
}

module _ (m f : PieceManager) (p : Piece) (d : IsDistinct m)
    (h : 1 ≤ count p.index (indices m.ongoing_pieces)) (s : SameIndices m f) where
  Keeps-settle_piece : (matching : Bool) → Returns (Keeps m) (settle_piece matching p f)
  unfolding settle_piece write
  Keeps-settle_piece true =
      Returns-bind (SameIndices m) (Keeps m) (write p f) _
        (Returns-bind (λ (b : Bytes). Unit {0}) (SameIndices m) (piece_data p) _
          (Returns-any (piece_data p))
          λ b _. record {
            missing_eq = s.missing_eq;
            ongoing_eq = s.ongoing_eq;
            have_eq = s.have_eq;
            total_eq = s.total_eq;
          })
        (λ w same. Keeps-finish_piece m w p d h same)
  Keeps-settle_piece false = Keeps-same m _ (record {
    missing_eq = s.missing_eq;
    ongoing_eq = indices-replace_piece (reset p) f.ongoing_pieces ∙ s.ongoing_eq;
    have_eq = s.have_eq;
    total_eq = s.total_eq;
  })

  Keeps-check_piece : (sha1 : Bytes → Bytes) → Returns (Keeps m) (check_piece sha1 p f)
  unfolding check_piece
  Keeps-check_piece sha1 = elim (Bool-cases (Piece.is_complete p)) [
    | inl done ↦
        rw (done, check_piece)
          (Returns-bind (λ (b : Bool). Unit {0}) (Keeps m) (is_hash_matching sha1 p) _
            (Returns-any (is_hash_matching sha1 p)) (λ b _. Keeps-settle_piece b))
    | inr open_ ↦ rw (open_, check_piece) (Keeps-same m f s)
  ]

pub block_received-index :
    (offset : ℕ) (content : Bytes) (p : Piece)
    → Returns (λ (q : Piece). q.index ≡ p.index) (Piece.block_received offset content p)
unfolding Piece.block_received
block_received-index offset content p = ground arith

Keeps-receive_into :
    (sha1 : Bytes → Bytes) (offset : ℕ) (content : Bytes) (p : Piece) (m f : PieceManager)
    → IsDistinct m
    → 1 ≤ count p.index (indices m.ongoing_pieces)
    → SameIndices m f
    → Returns (Keeps m) (receive_into sha1 offset content p f)
unfolding receive_into
Keeps-receive_into sha1 offset content p m f d h s =
    Returns-bind (λ (q : Piece). q.index ≡ p.index) (Keeps m)
      (Piece.block_received offset content p) _ (block_received-index offset content p)
      λ q e.
        Keeps-check_piece m (record f { ongoing_pieces = replace_piece q f.ongoing_pieces }) q d
          (rw e h)
          (record {
            missing_eq = s.missing_eq;
            ongoing_eq = indices-replace_piece q f.ongoing_pieces ∙ s.ongoing_eq;
            have_eq = s.have_eq;
            total_eq = s.total_eq;
          })
          sha1

Keeps-block_received :
    (sha1 : Bytes → Bytes) (i offset : ℕ) (content : Bytes) (m : PieceManager)
    → IsDistinct m
    → Keeps m (block_received sha1 i offset content m).0
      × Returns (Keeps m) (block_received sha1 i offset content m).1
unfolding block_received
Keeps-block_received sha1 i offset content m d = (
  record { same = λ j. refl; total = refl },
  elim (Option-cases (find_piece i m.ongoing_pieces)) [
    | inl unknown ↦ rw (unknown, block_received) tt
    | inr (p, found) ↦
        rw (found, block_received)
          (let at = find_piece-index i m.ongoing_pieces found in
            Keeps-receive_into sha1 offset content p m _ d (rw at.0 at.1)
              (record { missing_eq = refl; ongoing_eq = refl; have_eq = refl; total_eq = refl }))
  ],
)

Keeps-update_peer :
    (peer_id : Bytes) (index : ℕ) (m : PieceManager)
    → Returns (Keeps m) (update_peer peer_id index m)
unfolding update_peer
Keeps-update_peer peer_id index m = elim (Option-cases (lookup peer_id m.peers)) [
  | inl unknown ↦ rw (unknown, update_peer) tt
  | inr (bits, known) ↦
      rw (known, update_peer)
        (Returns-bind (λ (b : Bytes). Unit {0}) (Keeps m) (set_piece bits index) _
          (Returns-any (set_piece bits index)) (λ b _. record { same = λ i. refl; total = refl }))
]

Keeps-remove_peer : (peer_id : Bytes) (m : PieceManager) → Returns (Keeps m) (remove_peer peer_id m)
unfolding remove_peer
Keeps-remove_peer peer_id m = elim (Bool-cases (is_complete m)) [
  | inl done ↦ rw (done, remove_peer) (record { same = λ i. refl; total = refl })
  | inr more ↦
      rw (more, remove_peer)
        (elim (Option-cases (lookup peer_id m.peers)) [
          | inl unknown ↦ rw (unknown, remove_peer) tt
          | inr (bits, known) ↦ rw (known, remove_peer) (record { same = λ i. refl; total = refl })
        ])
]

Step-Keeps :
    (sha1 : Bytes → Bytes) {m m' : PieceManager} → IsDistinct m → Step sha1 m m' → Keeps m m'
unfolding add_peer reset_interval
Step-Keeps sha1 d (adds peer_id bits m) = record { same = λ i. refl; total = refl }
Step-Keeps sha1 d (resets m) = record { same = λ i. refl; total = refl }
Step-Keeps sha1 {m = a} d (updates peer_id index e) =
    Returns-ok (Keeps a) (update_peer peer_id index a) (Keeps-update_peer peer_id index a) e
Step-Keeps sha1 {m = a} d (removes peer_id e) =
    Returns-ok (Keeps a) (remove_peer peer_id a) (Keeps-remove_peer peer_id a) e
Step-Keeps sha1 {m = a} d (requests now later peer_id b e) =
    Returns-ok (λ r. Keeps a r.1) (next_request now later peer_id a)
      (Keeps-next_request now later peer_id a d) e
Step-Keeps sha1 {m = a} d (receives index offset content e) =
    Returns-ok (Keeps a) (block_received sha1 index offset content a).1
      (Keeps-block_received sha1 index offset content a d).1 e
Step-Keeps sha1 d (refuses index offset content x m e) =
    (Keeps-block_received sha1 index offset content m d).0
Step-Keeps sha1 d (locks index offset m) = record { same = λ i. refl; total = refl }
Step-Keeps sha1 {m = a} d (unlocks index offset content p found e) =
    let at = find_piece-index index a.ongoing_pieces found in
    Returns-ok (Keeps a) (receive_into sha1 offset content p a)
      (Keeps-receive_into sha1 offset content p a a d (rw at.0 at.1)
        (record { missing_eq = refl; ongoing_eq = refl; have_eq = refl; total_eq = refl }))
      e

Reach-Keeps :
    (sha1 : Bytes → Bytes) {m m' : PieceManager} → IsDistinct m → Reach sha1 m m' → Keeps m m'
Reach-Keeps sha1 d here = record { same = λ i. refl; total = refl }
Reach-Keeps sha1 d (next r s) =
    let k = Reach-Keeps sha1 d r in
    let l = Step-Keeps sha1 (λ i. rw (k.same i) (d i)) s in
    record { same = λ i. l.same i ∙ k.same i; total = l.total ∙ k.total }

-- Each index below the number of pieces stands in one place, and no other index stands anywhere.
abbrev pub IsPartition : PieceManager → Type 0
IsPartition m = (i : ℕ) → held m i ≡ (if ltb i m.total_pieces then 1 else 0)

count-new_pieces :
    (i total total_length piece_length start : ℕ) (hashes : List Bytes)
    → count i (indices (new_pieces total total_length piece_length start hashes))
      ≡ (if leb start i && ltb i (start + length hashes) then 1 else 0)
unfolding new_pieces
count-new_pieces i total total_length piece_length start [] = ground arith
count-new_pieces i total total_length piece_length start (h ∷ hs) =
    ground (arith, count-new_pieces i total total_length piece_length (start + 1) hs)

-- Each index of a hash has its piece.
abbrev Covers : List Bytes → List Piece → Type 0
Covers hashes ps = (i : ℕ) → count i (indices ps) ≡ (if ltb i (length hashes) then 1 else 0)

initiate_pieces-Covers :
    (total_length piece_length : ℕ) (hashes : List Bytes)
    → Returns (Covers hashes) (initiate_pieces total_length piece_length hashes)
unfolding initiate_pieces
initiate_pieces-Covers total_length piece_length hashes =
    elim (Bool-cases (not (is_empty hashes) && piece_length == 0)) [
      | inl bad ↦ rw (bad, initiate_pieces) tt
      | inr fine ↦
          rw (fine, initiate_pieces)
            (λ i.
              ground (arith, count-new_pieces i (length hashes) total_length piece_length 0 hashes))
    ]

new_manager-IsPartition :
    (opens : Bool) (t : TorrentFile) (maximum_connections now : ℕ)
    → Returns IsPartition (new_manager opens t maximum_connections now)
unfolding new_manager
new_manager-IsPartition opens t maximum_connections now =
    Returns-bind (λ (n : ℕ). Unit {0}) IsPartition (read_piece_length t) _
      (Returns-any (read_piece_length t))
      λ n _.
        Returns-bind (λ (n : ℕ). Unit {0}) IsPartition (get_total_file_size t) _
          (Returns-any (get_total_file_size t))
          λ total _.
            Returns-bind (Covers (split_piece_hashes t.info.pieces)) IsPartition
              (initiate_pieces total n (split_piece_hashes t.info.pieces)) _
              (initiate_pieces-Covers total n (split_piece_hashes t.info.pieces))
              (λ ps covers i. omega (arith, covers i))

-- From the constructor on, through any history of calls, in which no thread goes on in `blockReceived` with a piece that another one has finished: every piece of the torrent is missing, ongoing or had, and in one of these lists only, once.
pub Reach-IsPartition :
    (sha1 : Bytes → Bytes) (opens : Bool) (t : TorrentFile) (maximum_connections now : ℕ)
    {m m' : PieceManager}
    → new_manager opens t maximum_connections now ≡ ok m
    → Reach sha1 m m'
    → IsPartition m'
Reach-IsPartition sha1 opens t maximum_connections now {m} {m'} e r =
    let start =
      Returns-ok IsPartition (new_manager opens t maximum_connections now)
        (new_manager-IsPartition opens t maximum_connections now) e in
    let k = Reach-Keeps sha1 (λ i. ground (arith, start i)) r in
    λ i. rw k.total (k.same i ∙ start i)
