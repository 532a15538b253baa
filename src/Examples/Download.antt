-- ===== src/Examples/Download.antt =====
-- A torrent of one piece of five bytes, downloaded from one peer.
use ufo_torrent.Common.{
  ℕ, ◌-◌, ◌%◌, ◌≤◌, true, false, List, [], ◌∷◌, All, Bytes, none, some, ltb, if◌then◌else◌,
  replicate, count, ok, ◌≡◌, refl, arith, Returns,
}
use ufo_torrent.Utils.Text.{hex_text}
use ufo_torrent.TorrentFile.{TorrentFile}
use ufo_torrent.Piece
use ufo_torrent.Piece.{Block, Piece, BlockStatus, pending, missing, piece_data}
use ufo_torrent.PieceManager.State.{PieceManager, insert, lookup, write_at}
use ufo_torrent.Utils.{has_piece, hex_decode}
use ufo_torrent.PieceManager.Setup.{new_manager, new_piece, block_size, split_piece_hashes}
use ufo_torrent.PieceManager.Peers.{add_peer}
use ufo_torrent.PieceManager.Requests.{next_request, get_rarest_piece, remove_piece, replace_piece}
use ufo_torrent.PieceManager.Receive.{block_received, receive_into, find_piece, remove_request}
use ufo_torrent.PieceManager.Labels.{IsVerified}
use ufo_torrent.PieceManager.Choice.{indices}
use ufo_torrent.PieceManager.Parts.Twice.{CountsTwice, unlocked_part-CountsTwice}
use ufo_torrent.PieceManager.Steps.{
  Step, Reach, adds, requests, receives, locks, unlocks, here, next,
}
use ufo_torrent.PieceManager.Verified.{Reach-IsVerified}
use ufo_torrent.PieceManager.Partition.{Reach-IsPartition, IsPartition}
use ufo_torrent.PieceManager.Rarest.{get_rarest_piece-IsLowest, IsLowest}
use ufo_torrent.PieceManager.Endgame.{Reach-next_request-none}
use ufo_torrent.PieceManager.Tiling.{new_piece-Tiles, Tiles, last_piece_bytes, block_bytes}

-- A hash function for the examples.
abbrev pub same_hash : Bytes → Bytes
same_hash bytes = hex_text b'a' (replicate 20 7)

abbrev peer : Bytes
peer = b'p' ∷ []

abbrev pub torrent : TorrentFile
torrent = record {
  announce = [];
  announce_list = [];
  created_by = none;
  creation_date = none;
  info = record {
    files = record { length = some 5; path = [] } ∷ [];
    name = b'f' ∷ [];
    piece_length = some 20;
    pieces = replicate 20 7;
  };
}

abbrev block : BlockStatus → Block
block s = record { piece = 0; offset = 0; length = 5; status = s; content = [] }

abbrev piece : List Block → Piece
piece bs = record { index = 0; hash_value = replicate 20 7; blocks = bs }

abbrev pub fresh : PieceManager
fresh = record {
  peers = [];
  missing_pieces = piece (block missing ∷ []) ∷ [];
  ongoing_pieces = [];
  have_pieces = [];
  pending_requests = [];
  downloaded_file = record { content = replicate 5 0; failed = false };
  piece_length = 20;
  maximum_connections = 5;
  pieces_downloaded_in_interval = 0;
  starting_time = 0;
  total_pieces = 1;
}

abbrev pub joined : PieceManager
joined = record fresh { peers = (peer, 128 ∷ []) ∷ [] }

abbrev pub requested : PieceManager
requested = record joined { missing_pieces = []; ongoing_pieces = piece (block pending ∷ []) ∷ [] }

abbrev data_bytes : Bytes
data_bytes = 1 ∷ 2 ∷ 3 ∷ 4 ∷ 5 ∷ []

abbrev full_piece : Piece
full_piece = piece (record (block BlockStatus.retrieved) { content = data_bytes } ∷ [])

abbrev pub finished : PieceManager
finished = record requested {
  ongoing_pieces = [];
  have_pieces = full_piece ∷ [];
  downloaded_file = record { content = data_bytes; failed = false };
  pieces_downloaded_in_interval = 1;
}

pub new_manager-fresh : new_manager true torrent 5 0 ≡ ok fresh
unfolding new_manager write_at
new_manager-fresh = refl

pub joins : Step same_hash fresh joined
unfolding add_peer insert
joins = adds peer (128 ∷ []) fresh

asks_block : next_request 1 2 peer joined ≡ ok (some (block pending), requested)
unfolding next_request lookup has_piece Piece.next_request
asks_block = refl

pub asks : Step same_hash joined requested
asks = requests 1 2 peer (some (block pending)) asks_block

gets_block : (block_received same_hash 0 0 data_bytes requested).1 ≡ ok finished
unfolding block_received Piece.block_received Piece.is_hash_matching Piece.is_complete write_at
    hex_decode find_piece remove_piece remove_request replace_piece
gets_block = refl

pub gets : Step same_hash requested finished
gets = receives 0 0 data_bytes gets_block

-- The same call in its two parts.
pub searches : Step same_hash requested requested
unfolding remove_request
searches = locks 0 0 requested

is_requested : find_piece 0 requested.ongoing_pieces ≡ some (piece (block pending ∷ []))
unfolding find_piece
is_requested = refl

goes_on : receive_into same_hash 0 data_bytes (piece (block pending ∷ [])) requested ≡ ok finished
unfolding receive_into Piece.block_received Piece.is_hash_matching Piece.is_complete write_at
    hex_decode remove_piece replace_piece
goes_on = refl

pub gets_unlocked : Step same_hash requested finished
gets_unlocked = unlocks 0 0 data_bytes (piece (block pending ∷ [])) is_requested goes_on

history : Reach same_hash fresh finished
history = next (next (next here joins) asks) gets

Reach-IsVerified_example :
    All (IsVerified same_hash (split_piece_hashes torrent.info.pieces)) finished.have_pieces
Reach-IsVerified_example = Reach-IsVerified same_hash true torrent 5 0 new_manager-fresh history

Reach-IsPartition_example : IsPartition finished
Reach-IsPartition_example = Reach-IsPartition same_hash true torrent 5 0 new_manager-fresh history

ending : Reach same_hash requested finished
ending = next here gets

Reach-next_request-none_example : next_request 100 100 peer finished ≡ ok (none, finished)
Reach-next_request-none_example = Reach-next_request-none same_hash 100 100 peer refl ending

one_missing : (i : ℕ) → count i (indices joined.missing_pieces) ≤ 1
one_missing i = ground arith

get_rarest_piece-IsLowest_example :
    Returns (IsLowest (128 ∷ []) joined) (get_rarest_piece (128 ∷ []) joined)
get_rarest_piece-IsLowest_example = get_rarest_piece-IsLowest (128 ∷ []) joined one_missing

new_piece-Tiles_example :
    Tiles 0 0 (40000 - 40000 % block_size) (new_piece 3 100000 40000 0 []).blocks
new_piece-Tiles_example = new_piece-Tiles 3 100000 40000 0 [] (omega arith)

last_piece_bytes_example :
    block_bytes (new_piece 3 100000 40000 2 []).blocks
    ≡ (let rem = 100000 % 40000 in if ltb rem block_size then rem else rem - block_size)
last_piece_bytes_example = last_piece_bytes 3 100000 40000 2 [] refl

-- Two threads with the only block of the piece.
fills : Piece.block_received 0 data_bytes (piece (block pending ∷ [])) ≡ ok full_piece
unfolding Piece.block_received
fills = refl

matches : Piece.is_hash_matching same_hash full_piece ≡ ok true
unfolding Piece.is_hash_matching hex_decode
matches = refl

full_is_complete : Piece.is_complete full_piece ≡ true
unfolding Piece.is_complete
full_is_complete = refl

requested-IsPartition : IsPartition requested
requested-IsPartition i = ground arith

unlocked_part-CountsTwice_example : CountsTwice same_hash 0 0 data_bytes requested
unlocked_part-CountsTwice_example =
    unlocked_part-CountsTwice same_hash 0 0 data_bytes (piece (block pending ∷ [])) full_piece
      requested is_requested requested-IsPartition fills full_is_complete matches
