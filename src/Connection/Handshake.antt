-- ===== src/Connection/Handshake.antt =====
-- The handshake, and how a connection ends.
use ufo_torrent.Common.{
  ℕ, false, [], ◌∷◌, Bytes, Option, none, some, ltb, beq, if◌then◌else◌, length, is_empty, Outcome,
  ok, throws, runtime_error, ◌≡◌, refl, ap, ◌∙◌, inl, inr, arith, Bool-cases, ge→ltb, length-append,
  take-append, drop-append, take-all,
}
use ufo_torrent.Message.{message}
use ufo_torrent.PieceManager.State.{PieceManager}
use ufo_torrent.PieceManager.Peers.{remove_peer}
use ufo_torrent.Socket.{Input, chunk, receive_data, receive_prefixed, recv, length_prefix, put_back}
use ufo_torrent.Connection.State.{Socket, World, done, raised, RunAll}
use ufo_torrent.Connection.{
  substr, with_socket, receive_from, receive, receive_message, to_message, handshake_bytes,
  check_reply, create_handshake_message, close_sock, close_on, close_fields, removed,
}
use ufo_torrent.Connection.Turn.{turn}

receive_keep_alive :
    (w : World) (s : Socket) (rest : Bytes) (i : Input)
    → s.input ≡ chunk 0 (0 ∷ 0 ∷ 0 ∷ rest) ∷ i
    → receive_from (some s) 0 w ≡ done [] (with_socket (record s { input = put_back rest i }) w)
unfolding receive_from receive_data recv receive_prefixed length_prefix
receive_keep_alive w s rest i f = rw (f, receive_from) refl

-- A keep-alive message, four zero bytes, makes the turn throw, whatever the state: the loop is left and the connection closed.
pub turn_keep_alive :
    (sha1 : Bytes → Bytes) (now later : ℕ) (w : World) (s : Socket) (rest : Bytes) (i : Input)
    → w.connection.sock ≡ some s
    → s.input ≡ chunk 0 (0 ∷ 0 ∷ 0 ∷ rest) ∷ i
    → turn sha1 now later w
      ≡ raised runtime_error (with_socket (record s { input = put_back rest i }) w)
unfolding turn receive_message receive to_message message
turn_keep_alive sha1 now later w s rest i e f =
    let reply = ap (λ o. receive_from o 0 w) e ∙ receive_keep_alive w s rest i f in
    rw (reply, turn) refl

module _ (w : World) (peer : Bytes) (h : length w.connection.info_hash ≡ 20)
    (k : length w.connection.client_id ≡ 20) (l : length peer ≡ 20) where
  -- The message that opens a handshake passes its assertion.
  create_handshake_message_lem :
      create_handshake_message w
      ≡ done (handshake_bytes w.connection.info_hash w.connection.client_id) w
  unfolding create_handshake_message
  create_handshake_message_lem =
      ground (arith, length-append w.connection.info_hash w.connection.client_id)

  substr-peer :
      (hash : Bytes) → length hash ≡ 20 → substr 48 20 (handshake_bytes hash peer) ≡ ok peer
  unfolding substr
  substr-peer hash n =
      let long : ltb (length (handshake_bytes hash peer)) 48 ≡ false =
        ge→ltb _ _ (omega (arith, length-append hash peer)) in
      rw (long, drop-append 20 hash peer n, take-all 20 peer (omega arith)) refl

  substr_hash :
      (hash : Bytes) → length hash ≡ 20 → substr 28 20 (handshake_bytes hash peer) ≡ ok hash
  unfolding substr
  substr_hash hash n =
      let long : ltb (length (handshake_bytes hash peer)) 28 ≡ false =
        ge→ltb _ _ (omega (arith, length-append hash peer)) in
      rw (long, take-append 20 hash peer n) refl

  -- A reply in the form of our own handshake is taken when it carries our hash, and its peer identifier is kept; one that carries another hash throws.
  pub check_reply-handshake :
      (hash : Bytes)
      → length hash ≡ 20
      → check_reply (handshake_bytes hash peer) w ≡ (
          if beq hash w.connection.info_hash
          then done tt (record w { connection = record w.connection { peer_id = peer } })
          else raised runtime_error
              (record w { connection = record w.connection { peer_id = peer } }))
  unfolding check_reply
  check_reply-handshake hash n =
      let long : ltb (length (handshake_bytes hash peer)) 48 ≡ false =
        ge→ltb _ _ (omega (arith, length-append hash peer)) in
      rw (long, drop-append 20 hash peer n, take-all 20 peer (omega arith), substr_hash hash n) refl

-- What `closeSock` makes of a connection: with a socket three fields are reset and no other changes, and without one nothing changes.
unfoldable pub IsClosed : Option Socket → World → World → Type 0
IsClosed none w w' = w' ≡ w
IsClosed (some s) w w' =
    w'.connection
    ≡ record w.connection { sock = none; request_pending = false; peer_bit_field = [] }

removed-IsClosed :
    (s : Socket) (o : Outcome PieceManager)
    → (w w' : World) → IsClosed (some s) w w'
    → RunAll (IsClosed (some s) w) (removed o w')
unfolding removed IsClosed
removed-IsClosed s (ok m) w w' h = h
removed-IsClosed s (throws e) w w' h = h
removed-IsClosed s Outcome.undefined w w' h = tt
removed-IsClosed s Outcome.aborted w w' h = tt

close_on-IsClosed : (s : Option Socket) (w : World) → RunAll (IsClosed s w) (close_on s w)
unfolding close_on close_fields IsClosed
close_on-IsClosed none w = refl
close_on-IsClosed (some s) w = elim (Bool-cases (is_empty w.connection.peer_bit_field)) [
  | inl unknown ↦ rw unknown refl
  | inr known ↦
      rw known
        (removed-IsClosed s (remove_peer w.connection.peer_id w.manager) w (close_fields w) refl)
]

-- After `closeSock` of a connection with a socket the descriptor, the pending request and the bit field of the peer are reset, and every other field, the choke flag among them, is as the old peer left it, whatever becomes of the removal of the peer; without a socket nothing changes.
pub close_sock-IsClosed : (w : World) → RunAll (IsClosed w.connection.sock w) (close_sock w)
unfolding close_sock
close_sock-IsClosed w = close_on-IsClosed w.connection.sock w
