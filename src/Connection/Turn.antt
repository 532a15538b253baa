-- ===== src/Connection/Turn.antt =====
-- One round of the inner loop of `PeerConnection::start`.
use ufo_torrent.Common.{
  ℕ, true, false, not, ◌&&◌, Bytes, ltb, ◌==◌, if◌then◌else◌, length, Outcome, ok, throws,
  runtime_error,
}
use ufo_torrent.Utils.{bytes_to_int}
use ufo_torrent.Message
use ufo_torrent.PieceManager.State.{PieceManager}
use ufo_torrent.PieceManager.Peers.{add_peer, update_peer}
use ufo_torrent.PieceManager.Receive.{block_received}
use ufo_torrent.Connection.State.{
  Connection, done, raised, undefined, aborted, M, pure, raise, ◌>>=◌, ◌>>◌, from_outcome,
}
use ufo_torrent.Connection.{substr, receive_message, request_piece}

abbrev set_connection : (Connection → Connection) → M (Unit {0})
set_connection f w = done tt (record w { connection = f w.connection })

-- The manager that a call leaves, and the exception that it throws.
abbrev pub settle : PieceManager × Outcome PieceManager → M (Unit {0})
settle (m, ok m') w = done tt (record w { manager = m' })
settle (m, throws e) w = raised e (record w { manager = m })
settle (m, Outcome.undefined) w = undefined
settle (m, Outcome.aborted) w = aborted

unfoldable pub handle_have : Bytes → M (Unit {0})
handle_have payload = do
  index ← from_outcome (bytes_to_int payload)
  (λ w. settle (w.manager, update_peer w.connection.peer_id index w.manager) w)

unfoldable pub handle_bit_field : Bytes → M (Unit {0})
handle_bit_field payload w =
    done tt (record w { manager = add_peer w.connection.peer_id payload w.manager })

-- The request after a message, made where the peer does not choke and no request is pending.
unfoldable pub next_turn : ℕ → ℕ → M (Unit {0})
next_turn now later w =
    if not w.connection.choked && not w.connection.request_pending
    then request_piece now later w
    else done tt w

module _ (sha1 : Bytes → Bytes) where
  unfoldable pub handle_piece : Bytes → M (Unit {0})
  unfolding substr
  handle_piece payload = do
    set_connection (λ c. record c { request_pending = false })
    index_bytes ← from_outcome (substr 0 4 payload)
    index ← from_outcome (bytes_to_int index_bytes)
    begin_bytes ← from_outcome (substr 4 4 payload)
    begin ← from_outcome (bytes_to_int begin_bytes)
    content ← from_outcome (substr 8 (length payload) payload)
    (λ w. settle (block_received sha1 index begin content w.manager) w)

  -- The `switch` over the identifier; an unknown one is only reported.
  unfoldable pub handle_message : ℕ → Bytes → M (Unit {0})
  unfolding handle_piece handle_have handle_bit_field
  handle_message id payload =
      if id == Message.choke
      then set_connection (λ c. record c { choked = true })
      else if id == Message.unchoke
      then set_connection (λ c. record c { choked = false })
      else if id == Message.piece
      then handle_piece payload
      else if id == Message.have
      then handle_have payload
      else if id == Message.bit_field
      then handle_bit_field payload
      else pure tt

  unfoldable pub turn : ℕ → ℕ → M (Unit {0})
  unfolding receive_message handle_message next_turn
  turn now later = do
    m ← receive_message
    (if ltb 10 m.message_id then raise runtime_error else pure tt)
    handle_message m.message_id m.payload
    next_turn now later
