-- ===== src/PieceManager/Setup.antt =====
-- The constructor of the piece manager: the table of pieces and the output file.
-- Sizes are taken below 2 ^ 63, where a `long` holds them, and piece lengths below 2 ^ 31, where
-- no product of an offset overflows an `int`.
use ufo_torrent.Common.{
  ℕ, zero, suc, ◌+◌, ◌-◌, ◌*◌, ◌/◌, ◌%◌, ◌^◌, max, Bool, true, not, ◌&&◌, List, [], ◌∷◌, Bytes,
  none, some, ◌==◌, if◌then◌else◌, length, is_empty, take, drop, Outcome, ok, undefined, ◌>>=◌,
}
use ufo_torrent.TorrentFile.{TorrentFile, TorrentFileInfo}
use ufo_torrent.Piece.{Piece, Block, missing}
use ufo_torrent.PieceManager.State.{PieceManager, OutFile, write_at}

abbrev pub block_size : ℕ
block_size = 16384

-- The loop of `getTotalFileSize`. Reading an uninitialised length is undefined.
unfoldable pub sum_lengths : ℕ → List TorrentFileInfo → Outcome ℕ
sum_lengths total [] = ok total
sum_lengths total (f ∷ fs) = elim f.length [
  | none ↦ undefined
  | some n ↦ sum_lengths ((total + n) % 2 ^ 64) fs
]

unfoldable pub get_total_file_size : TorrentFile → Outcome ℕ
unfolding sum_lengths
get_total_file_size t = sum_lengths 0 t.info.files

-- The loop of `splitPieceHashes`, twenty bytes in each round.
unfoldable pub split_hashes : ℕ → Bytes → List Bytes
split_hashes fuel [] = []
split_hashes zero (b ∷ bs) = []
split_hashes (suc fuel) (b ∷ bs) = take 20 (b ∷ bs) ∷ split_hashes fuel (drop 20 (b ∷ bs))

-- Each round takes a byte at least, so as many rounds as bytes are enough.
unfoldable pub split_piece_hashes : Bytes → List Bytes
unfolding split_hashes
split_piece_hashes pieces = split_hashes (length pieces) pieces

-- A fresh block of piece `i`; its `length` is given.
abbrev pub new_block : ℕ → ℕ → ℕ → Block
new_block i offset size = record {
  piece = i;
  offset = offset * block_size;
  length = size;
  status = missing;
  content = [];
}

-- The inner loop of `initiatePieces` from the block number `offset` on, with `rounds` left.
-- `last_size` is the length of the last block of the last piece.
unfoldable pub new_blocks : ℕ → Bool → ℕ → ℕ → ℕ → List Block
new_blocks i last last_size zero offset = []
new_blocks i last last_size (suc rounds) offset =
    new_block i offset (if last && rounds == 0 then last_size else block_size)
    ∷ new_blocks i last last_size rounds (offset + 1)

-- The number of blocks of a piece that is not the last; the division is that of integers.
abbrev pub block_count : ℕ → ℕ
block_count piece_length = piece_length / block_size

-- The number of blocks of the last piece.
abbrev pub last_block_count : ℕ → ℕ
last_block_count rem_length = max (rem_length / block_size) 1

-- One round of the outer loop.
unfoldable pub new_piece : ℕ → ℕ → ℕ → ℕ → Bytes → Piece
unfolding new_blocks
new_piece total_pieces total_length piece_length i hash =
    let last = i == total_pieces - 1 in
    let rem_length = if last then total_length % piece_length else piece_length in
    let blocks = if last then last_block_count rem_length else block_count piece_length in
    record {
      index = i;
      hash_value = hash;
      blocks = new_blocks i last (rem_length % block_size) blocks 0;
    }

unfoldable pub new_pieces : ℕ → ℕ → ℕ → ℕ → List Bytes → List Piece
unfolding new_piece
new_pieces total_pieces total_length piece_length i [] = []
new_pieces total_pieces total_length piece_length i (h ∷ hs) =
    new_piece total_pieces total_length piece_length i h
    ∷ new_pieces total_pieces total_length piece_length (i + 1) hs

-- `initiatePieces`. A remainder by zero, or an uninitialised piece length, is undefined.
unfoldable pub initiate_pieces : ℕ → ℕ → List Bytes → Outcome (List Piece)
unfolding new_pieces
initiate_pieces total_length piece_length hashes =
    if not (is_empty hashes) && piece_length == 0
    then undefined
    else ok (new_pieces (length hashes) total_length piece_length 0 hashes)

-- The opening of the output file, `seekp(total - 1)` and `write("", 1)`: a failing open sets the fail bit, and a negative position too, and then nothing is written.
unfoldable pub create_file : Bool → ℕ → OutFile
create_file opens total =
    let fresh : OutFile = record { content = []; failed = not opens } in
    if total == 0 then record fresh { failed = true } else write_at (total - 1) (0 ∷ []) fresh

unfoldable pub read_piece_length : TorrentFile → Outcome ℕ
read_piece_length t = elim t.info.piece_length [ none ↦ undefined | some n ↦ ok n ]

-- `PieceManager::PieceManager`. `opens` tells whether the output file can be opened. The thread that it starts is in Progress.
unfoldable pub new_manager : Bool → TorrentFile → ℕ → ℕ → Outcome PieceManager
unfolding read_piece_length get_total_file_size initiate_pieces split_piece_hashes create_file
new_manager opens t maximum_connections now = do
  piece_length ← read_piece_length t
  total ← get_total_file_size t
  pieces ← initiate_pieces total piece_length (split_piece_hashes t.info.pieces)
  ok (record {
    peers = [];
    missing_pieces = pieces;
    ongoing_pieces = [];
    have_pieces = [];
    pending_requests = [];
    downloaded_file = create_file opens total;
    piece_length = piece_length;
    maximum_connections = maximum_connections;
    pieces_downloaded_in_interval = 0;
    starting_time = now;
    total_pieces = length (split_piece_hashes t.info.pieces);
  })
