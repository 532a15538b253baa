-- ===== src/PieceManager/Parts/Twice.antt =====
-- Two threads in `blockReceived` with a block of the same piece.
use ufo_torrent.Common.{
  ℕ, ◌+◌, ◌≤◌, true, List, [], ◌∷◌, ◌++◌, Bytes, none, some, ◌==◌, length, count, ok, throws,
  runtime_error, ◌≡◌, refl, ap, subst, ◌∙◌, ◌⊎◌, inl, inr, arith, Bool-cases, length-append,
  Returns-ok,
}
use ufo_torrent.Piece
use ufo_torrent.Piece.{Piece, Block, fill_block, retrieved, is_hash_matching}
use ufo_torrent.PieceManager.State.{PieceManager, is_complete}
use ufo_torrent.PieceManager.Requests.{replace_piece}
use ufo_torrent.PieceManager.Receive.{find_piece}
use ufo_torrent.PieceManager.Choice.{indices, count-remove_piece, find_piece-index}
use ufo_torrent.PieceManager.Partition.{IsPartition}
use ufo_torrent.PieceManager.Complete.{HasAll}
use ufo_torrent.PieceManager.Parts.{locked_part, target_piece, change_piece, unlocked_part}
use ufo_torrent.PieceManager.Parts.Whole.{replace_piece-absent, block_received-index}
use ufo_torrent.PieceManager.Parts.Repeated.{check_target-counts, unlocked_part-IsRepeated}

-- A block that is filled again with the same bytes stays as it is.
fill_block-again :
    (offset : ℕ) (content : Bytes) (bs : List Block)
    → (fill_block offset content bs ≡ none)
      ⊎ ((cs : List Block) × (fill_block offset content bs ≡ some cs)
          × (fill_block offset content cs ≡ some cs))
unfolding fill_block
fill_block-again offset content [] = inl refl
fill_block-again offset content (b ∷ bs) = elim (Bool-cases (b.offset == offset)) [
  | inl same ↦
      let filled : Block = record b { status = retrieved; content = content } in
      inr (filled ∷ bs, rw (same, fill_block) refl, rw (same, fill_block) refl)
  | inr other ↦ elim (fill_block-again offset content bs) [
    | inl no_block ↦ inl (rw (other, no_block, fill_block) refl)
    | inr (cs, once, again) ↦
        inr (b ∷ cs, rw (other, once, fill_block) refl, rw (other, again, fill_block) refl)
  ]
]

block_received-again :
    (offset : ℕ) (content : Bytes) (p p' : Piece)
    → Piece.block_received offset content p ≡ ok p'
    → Piece.block_received offset content p' ≡ ok p'
unfolding Piece.block_received
block_received-again offset content p p' e = elim (fill_block-again offset content p.blocks) [
  | inl no_block ↦ absurd (cc (e, no_blocks no_block))
  | inr (cs, once, again) ↦
      let filled : Piece = record p { blocks = cs } in
      let same : filled ≡ p' = cc (e, fills p cs once) in
      subst (λ q. Piece.block_received offset content q ≡ ok q) same (fills filled cs again)
]
  where
    no_blocks :
        fill_block offset content p.blocks ≡ none
        → Piece.block_received offset content p ≡ throws runtime_error
    no_blocks h = rw (h, Piece.block_received) refl

    fills :
        (q : Piece) (cs : List Block)
        → fill_block offset content q.blocks ≡ some cs
        → Piece.block_received offset content q ≡ ok (record q { blocks = cs })
    fills q cs h = rw (h, Piece.block_received) refl

find_piece_absent : (i : ℕ) (ps : List Piece) → count i (indices ps) ≡ 0 → find_piece i ps ≡ none
unfolding find_piece
find_piece_absent i [] h = refl
find_piece_absent i (p ∷ ps) h = ground (arith, find_piece_absent i ps, h)

find_piece-last :
    (i : ℕ) (ps : List Piece) (p : Piece)
    → count i (indices ps) ≡ 0
    → p.index ≡ i
    → find_piece i (ps ++ (p ∷ [])) ≡ some p
unfolding find_piece
find_piece-last i [] p h e = ground (arith, e)
find_piece-last i (q ∷ qs) p h e = ground (arith, find_piece-last i qs p, h, e)

-- The state after the searches of both threads.
abbrev pub searched : ℕ → ℕ → PieceManager → PieceManager
searched i offset m = (locked_part i offset (locked_part i offset m).0).0

-- Both threads find the piece, then one after the other goes on; at the end the manager counts as complete
-- where two more pieces than before would be all of them, while a piece is not there or there twice.
abbrev pub CountsTwice : (Bytes → Bytes) → ℕ → ℕ → Bytes → PieceManager → Type 0
CountsTwice sha1 i offset content m =
    ((locked_part i offset m).1 ≡ true)
    × ((locked_part i offset (locked_part i offset m).0).1 ≡ true)
    × (m1 : PieceManager) × (m2 : PieceManager) × (unlocked_part sha1 i offset content
          (searched i offset m)
        ≡ ok m1)
    × (unlocked_part sha1 i offset content m1 ≡ ok m2)
    × (is_complete m2 ≡ (length m.have_pieces + 2 == m.total_pieces))
    × (¬ HasAll m2)

HasAll-IsPartition : (m : PieceManager) → HasAll m → IsPartition m
HasAll-IsPartition m h i = simp (h.1.0, h.1.1) (ground (arith, h.0 i))

module _ (sha1 : Bytes → Bytes) (i offset : ℕ) (content : Bytes) (p p' : Piece) (m : PieceManager)
    (found : find_piece i m.ongoing_pieces ≡ some p) (parts : IsPartition m)
    (filled : Piece.block_received offset content p ≡ ok p')
    (complete : Piece.is_complete p' ≡ true) (matches : is_hash_matching sha1 p' ≡ ok true) where
  ongoing_at : (p.index ≡ i) × (1 ≤ count i (indices m.ongoing_pieces))
  ongoing_at = find_piece-index i m.ongoing_pieces found

  not_had : count i (indices m.have_pieces) ≡ 0
  not_had = ground (arith, parts i, ongoing_at.1)

  filled_at : p'.index ≡ i
  filled_at =
      Returns-ok (λ (q : Piece). q.index ≡ p.index) (Piece.block_received offset content p)
        (block_received-index offset content p) filled
      ∙ ongoing_at.0

  -- The first thread goes on and finishes the piece.
  first_finishes :
      (m1 : PieceManager) × (unlocked_part sha1 i offset content (searched i offset m) ≡ ok m1)
      × (m1.have_pieces ≡ m.have_pieces ++ (p' ∷ []))
      × (m1.total_pieces ≡ m.total_pieces)
      × (count i (indices m1.ongoing_pieces) ≡ 0)
  unfolding locked_part unlocked_part target_piece change_piece
  first_finishes =
      let (m1, ends, have, total, ongoing) =
        check_target-counts sha1 p' (change_piece p' (searched i offset m)) complete matches in
      let absent : replace_piece p' m.have_pieces ≡ m.have_pieces =
        replace_piece-absent p' m.have_pieces
          (ap (λ j. count j (indices m.have_pieces)) filled_at ∙ not_had) in
      (
        m1,
        rw (found, filled, unlocked_part, target_piece) ends,
        have ∙ ap (λ ps. ps ++ (p' ∷ [])) absent,
        total,
        ap (λ ps. count i (indices ps)) ongoing
            ∙ (count-remove_piece i p'.index (replace_piece p' m.ongoing_pieces)
                ∙ ground (arith, filled_at)),
      )

  -- Where the pieces are a partition, and a block completes an ongoing piece whose hash then matches, two threads
  -- with that block both find the piece, and each of them, one after the other, counts it: after that
  -- `isComplete` compares two pieces more than before with the number of pieces, while it is not so that every
  -- piece is there once.
  pub unlocked_part-CountsTwice : CountsTwice sha1 i offset content m
  unfolding locked_part is_complete
  unlocked_part-CountsTwice =
      let (m1, first, have, total, gone) = first_finishes in
      let there : find_piece i m1.have_pieces ≡ some p' =
        ap (find_piece i) have ∙ find_piece-last i m.have_pieces p' not_had filled_at in
      let (m2, second, (longer, (same_total, broken))) =
        unlocked_part-IsRepeated sha1 i offset content p' p' m1
          (find_piece_absent i m1.ongoing_pieces gone) there
          (block_received-again offset content p p' filled) complete matches in
      let many : length m2.have_pieces ≡ length m.have_pieces + 2 =
        omega (arith, longer, ap length have, length-append m.have_pieces (p' ∷ [])) in
      (
        rw (found, locked_part) refl,
        rw (found, locked_part) refl,
        m1,
        m2,
        first,
        second,
        ap (λ n. n == m2.total_pieces) many
            ∙ ap (λ n. length m.have_pieces + 2 == n) (same_total ∙ total),
        λ h. broken (HasAll-IsPartition m2 h),
      )
