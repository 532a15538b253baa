-- ===== src/Connection.antt =====
-- src/network_part/PeerConnection.cpp: one connection to a peer. A turn of its loop reads and
-- changes the connection and the shared piece manager. Whether the operating system connects and
-- sends is an argument; a socket of the model is an open one.
pub mod State
pub mod Turn
pub mod Protocol
pub mod Handshake
pub mod Start
pub mod Present
pub mod Caught
use ufo_torrent.Common.{
  [], ℕ, ◌+◌, Bool, true, false, ◌∷◌, ◌++◌, Bytes, Option, none, some, ltb, ◌==◌, beq,
  if◌then◌else◌, length, is_empty, take, drop, replicate, count, Outcome, ok, throws, runtime_error,
  out_of_range,
}
use ufo_torrent.Utils.{bytes_to_int}
use ufo_torrent.Message
use ufo_torrent.Message.{BitTorrentMessage, message, message_string, be32}
use ufo_torrent.Piece.{Block}
use ufo_torrent.Socket.{Input, got, threw, waits, receive_data}
use ufo_torrent.PieceManager.State.{PieceManager, is_complete}
use ufo_torrent.PieceManager.Peers.{add_peer, update_peer, remove_peer}
use ufo_torrent.PieceManager.Requests.{next_request}
use ufo_torrent.PieceManager.Receive.{block_received}
use State.{
  Socket, Connection, World, Run, done, raised, undefined, aborted, waiting, M, pure, raise, ◌>>=◌,
  ◌>>◌, from_outcome,
}

-- A new state of the socket.
abbrev pub with_socket : Socket → World → World
with_socket s w = record w { connection = record w.connection { sock = some s } }

-- The call of `send` for bytes that are not empty.
unfoldable pub send_on : Option Socket → Bytes → M (Unit {0})
send_on none bytes w = raised runtime_error w
send_on (some s) bytes w =
    if s.broken
    then raised runtime_error w
    else done tt (with_socket (record s { output = s.output ++ (bytes ∷ []) }) w)

-- `sendData`: nothing is sent of an empty string, and a failure throws.
unfoldable pub send_data : Bytes → M (Unit {0})
unfolding send_on
send_data [] w = done tt w
send_data (b ∷ bs) w = send_on w.connection.sock (b ∷ bs) w

-- `receiveData`; a descriptor of zero throws.
unfoldable pub receive_from : Option Socket → ℕ → M Bytes
receive_from none size w = raised runtime_error w
receive_from (some s) size w = elim (receive_data size s.input) [
  | got bytes i ↦ done bytes (with_socket (record s { input = i }) w)
  | threw e ↦ raised e w
  | waits ↦ waiting
]

unfoldable pub receive : ℕ → M Bytes
unfolding receive_from
receive size w = receive_from w.connection.sock size w

-- `receiveMessage`: an empty reply is a keep-alive message.
unfoldable pub to_message : Bytes → BitTorrentMessage
to_message [] = message Message.keep_alive []
to_message (id ∷ payload) = message id payload

unfoldable pub receive_message : M BitTorrentMessage
unfolding receive to_message
receive_message = receive 0 >>= λ reply. pure (to_message reply)

-- `std::string::substr`.
unfoldable pub substr : ℕ → ℕ → Bytes → Outcome Bytes
substr position count bytes =
    if ltb (length bytes) position
    then throws out_of_range
    else ok (take count (drop position bytes))

abbrev set_connection : (Connection → Connection) → M (Unit {0})
set_connection f w = done tt (record w { connection = f w.connection })

-- "BitTorrent protocol".
abbrev pub protocol : Bytes
protocol =
    b'B' ∷ b'i' ∷ b't' ∷ b'T' ∷ b'o' ∷ b'r' ∷ b'r' ∷ b'e' ∷ b'n' ∷ b't' ∷ b' ' ∷ b'p' ∷ b'r' ∷ b'o'
    ∷ b't' ∷ b'o' ∷ b'c' ∷ b'o' ∷ b'l' ∷ []

abbrev pub handshake_bytes : Bytes → Bytes → Bytes
handshake_bytes info_hash client_id =
    length protocol ∷ (protocol ++ (replicate 8 0 ++ (info_hash ++ client_id)))

-- `createHandshakeMessage`, with its assertion.
unfoldable pub create_handshake_message : M Bytes
create_handshake_message w =
    let bytes = handshake_bytes w.connection.info_hash w.connection.client_id in
    if length bytes == length protocol + 49 then done bytes w else aborted

-- The checks of the reply in `performHandshake`. The peer's identifier is stored before the
-- hashes are compared.
unfoldable pub check_reply : Bytes → M (Unit {0})
unfolding substr
check_reply reply w =
    if is_empty reply
    then raised runtime_error w
    else if ltb (length reply) 48
    then raised runtime_error w
    else (do
      id ← from_outcome (substr 48 20 reply)
      set_connection (λ c. record c { peer_id = id })
      received ← from_outcome (substr 28 20 reply)
      (λ w'. if beq received w'.connection.info_hash then done tt w' else raised runtime_error w'))
        w

-- `performHandshake`; the argument is what the operating system connects to, if it does.
unfoldable pub perform_handshake : Option Socket → M (Unit {0})
unfolding create_handshake_message send_data receive check_reply
perform_handshake none = raise runtime_error
perform_handshake (some s) = do
  set_connection (λ c. record c { sock = some s })
  bytes ← create_handshake_message
  send_data bytes
  reply ← receive 68
  check_reply reply

-- `receiveBitField`.
unfoldable pub receive_bit_field : M (Unit {0})
unfolding receive_message
receive_bit_field = do
  m ← receive_message
  (λ w.
      if m.message_id == Message.bit_field
      then done tt (record {
        connection = record w.connection { peer_bit_field = m.payload };
        manager = add_peer w.connection.peer_id m.payload w.manager;
      })
      else raised runtime_error w)

unfoldable pub send_interested : M (Unit {0})
unfolding send_data
send_interested = send_data (message_string (message Message.interested []))

-- `establishNewConnection`: every exception is caught, and the answer is then false.
unfoldable pub caught : Run (Unit {0}) → Run Bool
caught (done u w) = done true w
caught (raised e w) = done false w
caught undefined = undefined
caught aborted = aborted
caught waiting = waiting

unfoldable pub establish_new_connection : Option Socket → M Bool
unfolding perform_handshake receive_bit_field send_interested caught
establish_new_connection s w =
    caught ((do perform_handshake s; receive_bit_field; send_interested) w)

-- The payload of a request message.
abbrev pub request_payload : Block → Bytes
request_payload b = be32 b.piece ++ (be32 b.offset ++ be32 b.length)

-- What `requestPiece` does with the block that it is given.
unfoldable pub send_request : Option Block → M (Unit {0})
unfolding send_data
send_request none = pure tt
send_request (some b) = do
  send_data (message_string (message Message.request (request_payload b)))
  set_connection (λ c. record c { request_pending = true })

-- `requestPiece`, with the two readings of the clock in `nextRequest`.
unfoldable pub request_piece : ℕ → ℕ → M (Unit {0})
unfolding send_request
request_piece now later w = elim (next_request now later w.connection.peer_id w.manager) [
  | ok (b, m) ↦ send_request b (record w { manager = m })
  | throws e ↦ raised e w
  | Outcome.undefined ↦ undefined
  | Outcome.aborted ↦ aborted
]

-- The removal of the peer in `closeSock`, in the state where the descriptor is closed.
unfoldable pub removed : Outcome PieceManager → M (Unit {0})
removed (ok m) w = done tt (record w { manager = m })
removed (throws e) w = raised e w
removed Outcome.undefined w = undefined
removed Outcome.aborted w = aborted

-- The fields that `closeSock` resets. The choke flag stays as it is.
unfoldable pub close_fields : World → World
close_fields w = record w {
  connection = record w.connection { sock = none; request_pending = false; peer_bit_field = [] };
}

unfoldable pub close_on : Option Socket → M (Unit {0})
unfolding close_fields removed
close_on none w = done tt w
close_on (some s) w =
    if is_empty w.connection.peer_bit_field
    then done tt (close_fields w)
    else removed (remove_peer w.connection.peer_id w.manager) (close_fields w)

-- `closeSock`.
unfoldable pub close_sock : M (Unit {0})
unfolding close_on
close_sock w = close_on w.connection.sock w
