-- ===== src/PieceManager/Tiling.antt =====
-- The blocks that the constructor cuts a piece into.
use ufo_torrent.Common.{
  ℕ, zero, suc, ◌+◌, ◌-◌, ◌*◌, ◌%◌, ◌≤◌, ◌<◌, min, true, false, List, [], ◌∷◌, Bytes, ltb, ◌==◌,
  if◌then◌else◌, length, take, drop, ◌≡◌, refl, sym, ◌≢◌, arith, length-take, length-drop,
}
use ufo_torrent.Piece.{Block}
use ufo_torrent.PieceManager.Setup.{
  new_blocks, new_piece, block_count, last_block_count, block_size, split_hashes,
  split_piece_hashes,
}

-- The blocks follow one another without a gap from `start` to `stop`, each of piece `i` and of one block size.
abbrev pub Tiles : ℕ → ℕ → ℕ → List Block → Type 0
Tiles i start stop [] = start ≡ stop
Tiles i start stop (b ∷ bs) =
    (b.piece ≡ i)
    × (b.offset ≡ start)
    × (b.length ≡ block_size)
    × Tiles i (start + b.length) stop bs

-- The bytes of all blocks together.
abbrev pub block_bytes : List Block → ℕ
block_bytes [] = 0
block_bytes (b ∷ bs) = b.length + block_bytes bs

Tiles-new_blocks :
    (i last_size rounds offset start stop : ℕ)
    → start ≡ offset * block_size
    → stop ≡ (offset + rounds) * block_size
    → Tiles i start stop (new_blocks i false last_size rounds offset)
unfolding new_blocks
Tiles-new_blocks i last_size zero offset start stop p q = omega arith
Tiles-new_blocks i last_size (suc rounds) offset start stop p q = (
  refl,
  sym p,
  refl,
  Tiles-new_blocks i last_size rounds (offset + 1) (start + block_size) stop (omega arith)
      (omega arith),
)

block_bytes-new_blocks :
    (i last_size rounds offset : ℕ)
    → block_bytes (new_blocks i true last_size (suc rounds) offset)
      ≡ rounds * block_size + last_size
unfolding new_blocks
block_bytes-new_blocks i last_size zero offset = omega arith
block_bytes-new_blocks i last_size (suc rounds) offset =
    ground (arith, block_bytes-new_blocks i last_size rounds (offset + 1))

module _ (total_pieces total_length piece_length i : ℕ) (hash : Bytes) where
  -- The blocks of a piece that is not the last, each of one block size, tile it without a gap from its start on, up to the largest multiple of the block size: what the piece length leaves over after division by the block size belongs to no block.
  pub new_piece-Tiles :
      i ≢ total_pieces - 1
      → Tiles i 0
          (piece_length - piece_length % block_size)
          (new_piece total_pieces total_length piece_length i hash).blocks
  unfolding new_piece
  new_piece-Tiles h =
      let middle : (i == total_pieces - 1) ≡ false = ground arith in
      rw middle (
        Tiles-new_blocks i (piece_length % block_size) (block_count piece_length) 0 0
          (piece_length - piece_length % block_size) (omega arith) (omega arith))

  -- The blocks of the last piece hold the remainder of the total length where that is less than a block, and one whole block less than it where it is not.
  pub last_piece_bytes :
      i ≡ total_pieces - 1
      → block_bytes (new_piece total_pieces total_length piece_length i hash).blocks ≡ (
          let rem = total_length % piece_length in
          if ltb rem block_size then rem else rem - block_size)
  unfolding new_piece
  last_piece_bytes h =
      let rem : ℕ = total_length % piece_length in
      let last : (i == total_pieces - 1) ≡ true = ground arith in
      let rounds : last_block_count rem ≡ suc (last_block_count rem - 1) = omega arith in
      rw (last, rounds)
        (ground (arith, block_bytes-new_blocks i (rem % block_size) (last_block_count rem - 1) 0))

-- The parts stand one after another in the string: none is empty, and each has twenty bytes or all that are left.
abbrev pub Splits : List Bytes → Bytes → Type 0
Splits [] bs = bs ≡ []
Splits (h ∷ hs) bs =
    (0 < length h) × (length h ≡ min 20 (length bs)) × (h ≡ take 20 bs) × Splits hs (drop 20 bs)

Splits-split_hashes : (fuel : ℕ) (bs : Bytes) → length bs ≤ fuel → Splits (split_hashes fuel bs) bs
unfolding split_hashes
Splits-split_hashes zero [] h = refl
Splits-split_hashes (suc fuel) [] h = refl
Splits-split_hashes zero (b ∷ bs) h = absurd (omega arith)
Splits-split_hashes (suc fuel) (b ∷ bs) h = (
  omega arith,
  omega (arith, length-take 19 bs),
  refl,
  Splits-split_hashes fuel (drop 19 bs) (omega (arith, length-drop 19 bs)),
)

-- `splitPieceHashes` cuts the whole string of hashes into parts of twenty bytes, the last of which may be shorter.
pub split_piece_hashes-Splits : (pieces : Bytes) → Splits (split_piece_hashes pieces) pieces
unfolding split_piece_hashes
split_piece_hashes-Splits pieces = Splits-split_hashes (length pieces) pieces (omega arith)
