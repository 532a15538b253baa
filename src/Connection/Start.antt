-- ===== src/Connection/Start.antt =====
-- The rest of src/network_part/PeerConnection.cpp: the constructor, `stop`, `receiveUnchoke`, and
-- `start`, with the peers that the queue gives.
use ufo_torrent.Common.{
  ℕ, Bool, true, false, not, List, [], ◌∷◌, Bytes, Option, none, ◌==◌, if◌then◌else◌, runtime_error,
}
use ufo_torrent.Tracker.{Peer}
use ufo_torrent.Queue.{is_dummy}
use ufo_torrent.Message
use ufo_torrent.PieceManager.State.{is_complete}
use ufo_torrent.Connection.State.{
  Socket, Connection, World, Run, done, raised, undefined, aborted, waiting, M, pure, ◌>>=◌,
}
use ufo_torrent.Connection.{receive_message, establish_new_connection, close_sock}
use ufo_torrent.Connection.Turn.{turn}

-- The constructor.
unfoldable pub new_connection : Bytes → Bytes → Connection
new_connection client_id info_hash = record {
  sock = none;
  choked = true;
  terminated = false;
  request_pending = false;
  client_id = client_id;
  info_hash = info_hash;
  peer_bit_field = [];
  peer_id = [];
}

-- `stop`.
unfoldable pub stop : M (Unit {0})
stop w = done tt (record w { connection = record w.connection { terminated = true } })

-- `getPeerId`.
unfoldable pub get_peer_id : Connection → Bytes
get_peer_id c = c.peer_id

-- `receiveUnchoke`.
unfoldable pub receive_unchoke : M (Unit {0})
unfolding receive_message
receive_unchoke = receive_message >>= λ m w.
    if not (m.message_id == Message.unchoke)
    then raised runtime_error w
    else done tt (record w { connection = record w.connection { choked = false } })

-- What the outer loop meets in a round: a peer of the queue, the socket that the operating system
-- opens to it, if it does, and the readings of the clock in the turns.
pub record Arrival : Type 0 where
  pub peer : Peer
  pub opened : Option Socket
  pub turns : List (ℕ × ℕ)

module _ (sha1 : Bytes → Bytes) where
  -- The inner loop, with the readings of the clock of each turn.
  unfoldable pub serve : List (ℕ × ℕ) → M (Unit {0})
  unfolding turn
  serve [] w = if is_complete w.manager then done tt w else waiting
  serve ((now, later) ∷ turns) w =
      let more = (turn sha1 now later >>= λ _. serve turns) w in
      if is_complete w.manager then done tt w else more

  -- The handler of exceptions.
  unfoldable pub closing : Run (Unit {0}) → Run (Unit {0})
  unfolding close_sock
  closing (done u w) = done u w
  closing (raised e w) = close_sock w
  closing undefined = undefined
  closing aborted = aborted
  closing waiting = waiting

  -- A round with a peer; whether the operating system connects is an argument.
  unfoldable pub start_round : Option Socket → List (ℕ × ℕ) → M (Unit {0})
  unfolding establish_new_connection serve closing
  start_round s turns w =
      closing ((establish_new_connection s >>= λ b. if b then serve turns else pure tt) w)

  -- The test of the outer loop.
  unfoldable pub goes_on : World → Bool
  goes_on w = if w.connection.terminated then false else not (is_complete w.manager)

  -- `start`, on the peers that the queue gives; without one more it waits in `pop_front`.
  unfoldable pub start : List Arrival → M (Unit {0})
  unfolding goes_on start_round is_dummy
  start [] w = if goes_on w then waiting else done tt w
  start (a ∷ arrivals) w =
      let round = (start_round a.opened a.turns >>= λ _. start arrivals) w in
      if goes_on w then (if is_dummy a.peer then done tt w else round) else done tt w
