-- ===== src/PieceManager/Parts/Repeated.antt =====
-- What the release of the mutex in `blockReceived` makes possible.
use ufo_torrent.Common.{
  ℕ, suc, ◌*◌, ◌≤◌, true, List, [], ◌∷◌, ◌++◌, Bytes, none, some, length, count, Outcome, ok, ◌>>=◌,
  ◌≡◌, refl, ap, ◌∙◌, arith, length-append, count-append, Returns-ok,
}
use ufo_torrent.Piece
use ufo_torrent.Piece.{Piece, is_hash_matching, reset, piece_data, contents}
use ufo_torrent.PieceManager.State.{PieceManager, write_at}
use ufo_torrent.PieceManager.Requests.{replace_piece, remove_piece}
use ufo_torrent.PieceManager.Receive.{find_piece, write, finish_piece}
use ufo_torrent.PieceManager.Choice.{
  indices, indices-append, indices-replace_piece, find_piece-index,
}
use ufo_torrent.PieceManager.Parts.Whole.{block_received-index}
use ufo_torrent.PieceManager.Partition.{IsPartition}
use ufo_torrent.PieceManager.Parts.{
  target_piece, change_piece, settle_target, check_target, unlocked_part,
}

-- The pieces are not in a partition, and there is one more than before.
abbrev pub IsRepeated : PieceManager → PieceManager → Type 0
IsRepeated m m' =
    (length m'.have_pieces ≡ suc (length m.have_pieces))
    × ((m'.total_pieces ≡ m.total_pieces) × (¬ IsPartition m'))

counted_twice :
    (i : ℕ) (p : Piece) (m m' : PieceManager)
    → p.index ≡ i
    → 1 ≤ count i (indices m.have_pieces)
    → m'.have_pieces ≡ replace_piece p m.have_pieces ++ (p ∷ [])
    → m'.total_pieces ≡ m.total_pieces
    → IsRepeated m m'
counted_twice i p m m' at once have total =
    let indexed : indices m'.have_pieces ≡ indices m.have_pieces ++ (i ∷ []) =
      ap indices have
      ∙ (indices-append (replace_piece p m.have_pieces) (p ∷ [])
          ∙ rw (indices-replace_piece p m.have_pieces, at) refl) in
    let counted = ap (count i) indexed ∙ count-append i (indices m.have_pieces) (i ∷ []) in
    (
      length-have (ap length indexed),
      (total, λ parts. absurd (ground (arith, counted, once, parts i))),
    )
  where
    length-indices : (ps : List Piece) → length (indices ps) ≡ length ps
    length-indices [] = refl
    length-indices (q ∷ qs) = ap suc (length-indices qs)

    length-have :
        length (indices m'.have_pieces) ≡ length (indices m.have_pieces ++ (i ∷ []))
        → length m'.have_pieces ≡ suc (length m.have_pieces)
    length-have e = omega (
      arith,
      e,
      length-indices m.have_pieces,
      length-indices m'.have_pieces,
      length-append (indices m.have_pieces) (i ∷ []),
    )

module _ (sha1 : Bytes → Bytes) where
  -- A complete piece whose hash matches is counted, whether or not it was counted before.
  pub check_target-counts :
      (p : Piece) (m : PieceManager)
      → Piece.is_complete p ≡ true
      → is_hash_matching sha1 p ≡ ok true
      → (m' : PieceManager) × (check_target sha1 p m ≡ ok m')
        × (m'.have_pieces ≡ m.have_pieces ++ (p ∷ []))
        × (m'.total_pieces ≡ m.total_pieces)
        × (m'.ongoing_pieces ≡ remove_piece p.index m.ongoing_pieces)
  unfolding check_target settle_target write finish_piece piece_data
  check_target-counts p m complete matches = (
    finish_piece p (record m {
      downloaded_file = write_at (p.index * m.piece_length) (contents p.blocks) m.downloaded_file;
    }),
    rw (complete, matches, check_target)
        (ap (λ (w : Outcome PieceManager). w >>= λ written. ok (finish_piece p written))
          (written complete)),
    refl,
    refl,
    refl,
  )
    where
      written :
          Piece.is_complete p ≡ true
          → write p m
            ≡ ok (record m {
              downloaded_file =
                  write_at (p.index * m.piece_length) (contents p.blocks) m.downloaded_file;
            })
      written e = rw (e, write, piece_data) refl

  -- A thread that has found a piece before another one has finished it comes to its second part when the
  -- piece is downloaded already: where its block leaves the piece complete and the hash matches, it counts
  -- the piece again. There is one piece more than before, so that the pieces are no partition any more, and
  -- what decides whether the download is complete is off by one.
  pub unlocked_part-IsRepeated :
      (i offset : ℕ) (content : Bytes) (p p' : Piece) (m : PieceManager)
      → find_piece i m.ongoing_pieces ≡ none
      → find_piece i m.have_pieces ≡ some p
      → Piece.block_received offset content p ≡ ok p'
      → Piece.is_complete p' ≡ true
      → is_hash_matching sha1 p' ≡ ok true
      → (m' : PieceManager) × (unlocked_part sha1 i offset content m ≡ ok m') × IsRepeated m m'
  unfolding unlocked_part target_piece change_piece
  unlocked_part-IsRepeated i offset content p p' m gone there filled complete matches =
      let at = find_piece-index i m.have_pieces there in
      let same : p'.index ≡ i =
        Returns-ok (λ (q : Piece). q.index ≡ p.index) (Piece.block_received offset content p)
          (block_received-index offset content p) filled
        ∙ at.0 in
      let (m', ends, have, total, ongoing) =
        check_target-counts p' (change_piece p' m) complete matches in
      (
        m',
        rw (gone, there, filled, unlocked_part, target_piece) ends,
        counted_twice i p' m m' same at.1 have total,
      )
