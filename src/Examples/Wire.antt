-- ===== src/Examples/Wire.antt =====
-- Messages and turns of one connection.
use ufo_torrent.Common.{
  true, false, List, [], ◌∷◌, Bytes, none, some, beq, if◌then◌else◌, replicate, runtime_error, ◌≡◌,
  refl, arith,
}
use ufo_torrent.Message.{message, message_string}
use ufo_torrent.PieceManager.State.{PieceManager}
use ufo_torrent.Socket.{Input, chunk, receive_data}
use ufo_torrent.Socket.Framing.{Reads, receive_data-message_string}
use ufo_torrent.Connection.State.{Socket, World, done, raised, RunAll}
use ufo_torrent.Connection.{handshake_bytes, check_reply, close_sock}
use ufo_torrent.Connection.Turn.{turn}
use ufo_torrent.Connection.Start.{Arrival, start}
use ufo_torrent.Connection.Caught.{IsCaught, start-IsCaught}
use ufo_torrent.Queue.{dummy_peer}
use ufo_torrent.Common.Int.{pos}
use ufo_torrent.Connection.Protocol.{turn-MaySend, MaySend}
use ufo_torrent.Connection.Handshake.{check_reply-handshake, close_sock-IsClosed, IsClosed}

abbrev no_hash : Bytes → Bytes
no_hash bytes = []

abbrev manager : PieceManager
manager = record {
  peers = [];
  missing_pieces = [];
  ongoing_pieces = [];
  have_pieces = [];
  pending_requests = [];
  downloaded_file = record { content = []; failed = false };
  piece_length = 20;
  maximum_connections = 5;
  pieces_downloaded_in_interval = 0;
  starting_time = 0;
  total_pieces = 1;
}

abbrev socket : Input → Socket
socket i = record { input = i; output = []; broken = false }

abbrev world : Input → World
world i = record {
  connection = record {
    sock = some (socket i);
    choked = true;
    terminated = false;
    request_pending = false;
    client_id = replicate 20 b'c';
    info_hash = replicate 20 b'h';
    peer_bit_field = [];
    peer_id = [];
  };
  manager = manager;
}

-- The wire form of a `have` message of piece 1, in two chunks.
receive_data-message_string_example :
    Reads
      (receive_data 0 (chunk 0 (0 ∷ 0 ∷ 5 ∷ 4 ∷ []) ∷ chunk 0 (0 ∷ 0 ∷ 1 ∷ 9 ∷ []) ∷ []))
      (4 ∷ 0 ∷ 0 ∷ 0 ∷ 1 ∷ [])
      (9 ∷ [])
unfolding message_string message
receive_data-message_string_example =
    receive_data-message_string 4 (0 ∷ 0 ∷ 0 ∷ 1 ∷ []) (9 ∷ []) 0 (0 ∷ 0 ∷ 5 ∷ 4 ∷ [])
      (chunk 0 (0 ∷ 0 ∷ 1 ∷ 9 ∷ []) ∷ []) (omega arith) (omega arith) refl

-- The peer stops choking.
abbrev unchoking : World
unchoking = world (chunk 0 (0 ∷ 0 ∷ 1 ∷ 1 ∷ []) ∷ [])

turn-MaySend_example : RunAll (MaySend unchoking.connection) (turn no_hash 0 0 unchoking)
turn-MaySend_example = turn-MaySend no_hash 0 0 unchoking

abbrev keeping : Input
keeping = chunk 0 (0 ∷ 0 ∷ 0 ∷ []) ∷ []

check_reply-handshake_example :
    check_reply (handshake_bytes (replicate 20 b'h') (replicate 20 b'p')) (world []) ≡ (
      if beq (replicate 20 b'h') (world []).connection.info_hash
      then done tt (record (world []) {
        connection = record (world []).connection { peer_id = replicate 20 b'p' };
      })
      else raised runtime_error (record (world []) {
        connection = record (world []).connection { peer_id = replicate 20 b'p' };
      }))
check_reply-handshake_example =
    check_reply-handshake (world []) (replicate 20 b'p') refl refl refl (replicate 20 b'h') refl

close_sock-IsClosed_example :
    RunAll (IsClosed unchoking.connection.sock unchoking) (close_sock unchoking)
close_sock-IsClosed_example = close_sock-IsClosed unchoking

-- A peer to which no connection opens, one that sends a keep-alive message, and a dummy.
abbrev arrivals : List Arrival
arrivals =
    record { peer = record { address = b'a' ∷ []; port = pos 1 }; opened = none; turns = [] }
    ∷ record {
      peer = record { address = b'b' ∷ []; port = pos 2 };
      opened = some (socket keeping);
      turns = (0, 0) ∷ [];
    }
    ∷ record { peer = dummy_peer; opened = none; turns = [] }
    ∷ []

start-IsCaught_example : IsCaught (start no_hash arrivals (world []))
start-IsCaught_example = start-IsCaught no_hash arrivals (world [])
