-- ===== src/PieceManager/OnDisk.antt =====
-- The output file holds the data of every piece that counts as downloaded.
use ufo_torrent.Common.{
  ℕ, ◌+◌, ◌*◌, ◌≤◌, ◌<◌, Bool, true, false, List, [], ◌∷◌, ◌++◌, All, Bytes, some, ◌==◌, length,
  get_or, count, ok, ◌≡◌, refl, sym, subst, ◌∙◌, inl, inr, arith, Bool-cases, Option-cases, ==_refl,
  All-append, Returns, Returns-ok, Returns-self, Returns-bind, Returns-after, Returns-if,
}
use ufo_torrent.Piece
use ufo_torrent.Piece.{Piece, Block, reset, piece_data, contents, is_hash_matching}
use ufo_torrent.PieceManager.State.{PieceManager, OutFile, write_at}
use ufo_torrent.PieceManager.Receive.{
  block_received, receive_into, check_piece, settle_piece, write, finish_piece, find_piece,
}
use ufo_torrent.PieceManager.Choice.{indices, find_piece-index}
use ufo_torrent.PieceManager.Kept.{held}
use ufo_torrent.PieceManager.Partition.{block_received-index}
use ufo_torrent.PieceManager.Files.{write_lem}
use ufo_torrent.PieceManager.Untouched.{IsUntouched}

-- The data of the piece are no longer than a piece.
abbrev pub IsFitting : ℕ → Piece → Type 0
IsFitting size p = length (contents p.blocks) ≤ size

-- The file holds the data of the piece at its place.
abbrev pub IsOnDisk : ℕ → Bytes → Piece → Type 0
IsOnDisk size content p =
    (k : ℕ)
    → k < length (contents p.blocks)
    → get_or content (p.index * size + k) 0 ≡ get_or (contents p.blocks) k 0

-- The file is good, and it holds the pieces that count as downloaded if each is no longer than a piece.
pub record IsStored (size : ℕ) (m : PieceManager) : Type 0 where
  pub good : m.downloaded_file.failed ≡ false
  pub size_same : m.piece_length ≡ size
  pub stored :
      All (IsFitting size) m.have_pieces
      → All (IsOnDisk size m.downloaded_file.content) m.have_pieces

pub IsStored-untouched :
    (size : ℕ) (m m' : PieceManager) → IsUntouched m m' → IsStored size m → IsStored size m'
IsStored-untouched size m m' u s = record {
  good = rw u.file_eq s.good;
  size_same = rw u.size_eq s.size_same;
  stored = rw (u.file_eq, u.have_eq) s.stored;
}

All-unsnoc :
    (P : Piece → Type 0) (ps : List Piece) (p : Piece) → All P (ps ++ (p ∷ [])) → All P ps × P p
All-unsnoc P [] p h = (tt, h.0)
All-unsnoc P (q ∷ ps) p h = let (before, last) = All-unsnoc P ps p h.1 in ((h.0, before), last)

-- No piece of the list has the index.
All-other :
    (i : ℕ) (ps : List Piece)
    → count i (indices ps) ≡ 0
    → All (λ (q : Piece). (q.index == i) ≡ false) ps
All-other i [] h = tt
All-other i (q ∷ ps) h = (grind (arith, h), All-other i ps (omega (arith, h)))

-- A write of a piece leaves the pieces of other indices on the disk.
IsOnDisk-other :
    (p q : Piece) (m w : PieceManager) (bytes : Bytes)
    → piece_data p ≡ ok bytes
    → write p m ≡ ok w
    → m.downloaded_file.failed ≡ false
    → length bytes ≤ m.piece_length
    → (q.index == p.index) ≡ false
    → IsFitting m.piece_length q
    → IsOnDisk m.piece_length m.downloaded_file.content q
    → IsOnDisk m.piece_length w.downloaded_file.content q
IsOnDisk-other p q m w bytes e written good fits other small h k inside =
    let new = write_lem p m w bytes q.index k e written good fits (omega (arith, inside, small)) in
    let old = h k inside in ground (arith, new, old, other)

IsOnDisk-same :
    (p : Piece) (m w : PieceManager)
    → piece_data p ≡ ok (contents p.blocks)
    → write p m ≡ ok w
    → m.downloaded_file.failed ≡ false
    → IsFitting m.piece_length p
    → IsOnDisk m.piece_length w.downloaded_file.content p
IsOnDisk-same p m w e written good fits k inside =
    let new =
      write_lem p m w (contents p.blocks) p.index k e written good fits
        (omega (arith, inside, fits)) in
    ground (arith, new, ==_refl p.index, inside)

IsOnDisk-others :
    (p : Piece) (m w : PieceManager) (bytes : Bytes) (qs : List Piece)
    → piece_data p ≡ ok bytes
    → write p m ≡ ok w
    → m.downloaded_file.failed ≡ false
    → length bytes ≤ m.piece_length
    → All (λ (q : Piece). (q.index == p.index) ≡ false) qs
    → All (IsFitting m.piece_length) qs
    → All (IsOnDisk m.piece_length m.downloaded_file.content) qs
    → All (IsOnDisk m.piece_length w.downloaded_file.content) qs
IsOnDisk-others p m w bytes [] e written good fits other small h = tt
IsOnDisk-others p m w bytes (q ∷ qs) e written good fits other small h = (
  IsOnDisk-other p q m w bytes e written good fits other.0 small.0 h.0,
  IsOnDisk-others p m w bytes qs e written good fits other.1 small.1 h.1,
)

failed-write_at :
    (position : ℕ) (bytes : Bytes) (f : OutFile) → (write_at position bytes f).failed ≡ f.failed
unfolding write_at
failed-write_at position bytes f = elim (Bool-cases f.failed) [
  | inl bad ↦ rw bad refl
  | inr fine ↦ rw fine refl
]

-- What a write that returns has done.
record WriteKeeps (p : Piece) (m w : PieceManager) : Type 0 where
  whole : piece_data p ≡ ok (contents p.blocks)
  have_eq : w.have_pieces ≡ m.have_pieces
  size_eq : w.piece_length ≡ m.piece_length
  failed_eq : w.downloaded_file.failed ≡ m.downloaded_file.failed

WriteKeeps-write : (p : Piece) (m : PieceManager) → Returns (WriteKeeps p m) (write p m)
unfolding write piece_data
WriteKeeps-write p m = elim (Bool-cases (Piece.is_complete p)) [
  | inl done ↦
      rw (done, write)
        (record {
          whole = rw (done, piece_data) refl;
          have_eq = refl;
          size_eq = refl;
          failed_eq =
              failed-write_at (p.index * m.piece_length) (contents p.blocks) m.downloaded_file;
        })
  | inr open_ ↦ rw (open_, write) tt
]

settle_piece-IsStored :
    (matching : Bool) (p : Piece) (m : PieceManager)
    → All (λ (q : Piece). (q.index == p.index) ≡ false) m.have_pieces
    → IsStored m.piece_length m
    → Returns (IsStored m.piece_length) (settle_piece matching p m)
unfolding settle_piece finish_piece
settle_piece-IsStored false p m other s = record {
  good = s.good;
  size_same = s.size_same;
  stored = s.stored;
}
settle_piece-IsStored true p m other s =
    let size = m.piece_length in
    Returns-bind (λ w. write p m ≡ ok w) (IsStored size) (write p m) _ (Returns-self (write p m))
      λ w written.
        let kept = Returns-ok (WriteKeeps p m) (write p m) (WriteKeeps-write p m) written in
        record {
          good = kept.failed_eq ∙ s.good;
          size_same = kept.size_eq;
          stored = λ fits.
              let parts = All-unsnoc (IsFitting size) w.have_pieces p fits in
              let fits_before = subst (All (IsFitting size)) kept.have_eq parts.0 in
              All-append (IsOnDisk size w.downloaded_file.content) w.have_pieces (p ∷ [])
                (subst (All (IsOnDisk size w.downloaded_file.content)) (sym kept.have_eq) (
                  IsOnDisk-others p m w (contents p.blocks) m.have_pieces kept.whole written s.good
                    parts.1 other fits_before (s.stored fits_before)))
                (IsOnDisk-same p m w kept.whole written s.good parts.1, tt);
        }

module _ (sha1 : Bytes → Bytes) where
  check_piece-IsStored :
      (p : Piece) (m : PieceManager)
      → All (λ (q : Piece). (q.index == p.index) ≡ false) m.have_pieces
      → IsStored m.piece_length m
      → Returns (IsStored m.piece_length) (check_piece sha1 p m)
  unfolding check_piece
  check_piece-IsStored p m other s =
      Returns-if (IsStored m.piece_length) (Piece.is_complete p) _ _
        (Returns-after (IsStored m.piece_length) (is_hash_matching sha1 p) _
          (λ matching. settle_piece-IsStored matching p m other s))
        s

  pub receive_into-IsStored :
      (i offset : ℕ) (content : Bytes) (p : Piece) (m : PieceManager)
      → find_piece i m.ongoing_pieces ≡ some p
      → ((j : ℕ) → held m j ≤ 1)
      → IsStored m.piece_length m
      → Returns (IsStored m.piece_length) (receive_into sha1 offset content p m)
  unfolding receive_into
  receive_into-IsStored i offset content p m found distinct s =
      let at = find_piece-index i m.ongoing_pieces found in
      Returns-bind (λ (q : Piece). q.index ≡ p.index) (IsStored m.piece_length)
        (Piece.block_received offset content p) _ (block_received-index offset content p)
        λ q same.
          check_piece-IsStored q _
            (All-other q.index m.have_pieces
              (let same_i = same ∙ at.0 in rw same_i (omega (arith, distinct i, at.1))))
            (record { good = s.good; size_same = s.size_same; stored = s.stored })

  pub block_received-IsStored :
      (i offset : ℕ) (content : Bytes) (m : PieceManager)
      → ((j : ℕ) → held m j ≤ 1)
      → IsStored m.piece_length m
      → Returns (IsStored m.piece_length) (block_received sha1 i offset content m).1
  unfolding block_received
  block_received-IsStored i offset content m distinct s =
      elim (Option-cases (find_piece i m.ongoing_pieces)) [
        | inl unknown ↦ rw (unknown, block_received) tt
        | inr (p, found) ↦
            rw (found, block_received)
              (receive_into-IsStored i offset content p _ found distinct
                (record { good = s.good; size_same = s.size_same; stored = s.stored }))
      ]
