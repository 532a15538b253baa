-- ===== src/Hashing/Blocks.antt =====
-- The piece lengths that the program chooses, in blocks.
use ufo_torrent.Common.{ℕ, ◌*◌, ◌%◌, ◌≤◌, ◌≡◌, arith}
use ufo_torrent.Hashing.{choose_piece_length}
use ufo_torrent.PieceManager.Setup.{block_size}

-- The piece length that is chosen for a torrent is a whole number of blocks, from one block to 2048.
pub choose_piece_length-blocks :
    (size : ℕ)
    → (choose_piece_length size % block_size ≡ 0)
      × (block_size ≤ choose_piece_length size)
      × (choose_piece_length size ≤ 2048 * block_size)
unfolding choose_piece_length
choose_piece_length-blocks size = (ground arith, ground arith, ground arith)
