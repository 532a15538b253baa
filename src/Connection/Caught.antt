-- ===== src/Connection/Caught.antt =====
-- The handler of `start` closes the socket, which removes the peer from the piece manager, and that
-- throws for a peer that is not there.
use ufo_torrent.Common.{
  ℕ, Bool, true, false, List, [], ◌∷◌, Bytes, Option, none, some, ltb, ◌==◌, if◌then◌else◌,
  is_empty, ok, runtime_error, ◌≡◌, refl, inl, inr, Bool-cases,
}
use ufo_torrent.Message
use ufo_torrent.Message.{message, message_string}
use ufo_torrent.PieceManager.State.{PieceManager, is_complete, erase}
use ufo_torrent.PieceManager.Peers.{add_peer, remove_peer}
use ufo_torrent.Queue.{is_dummy}
use ufo_torrent.Connection.State.{
  Socket, World, Run, done, raised, undefined, aborted, waiting, M, pure, raise, and_then, RunAll,
}
use ufo_torrent.Connection.{
  send_data, receive_message, receive_bit_field, send_interested, establish_new_connection, caught,
  perform_handshake, close_on, close_sock,
}
use ufo_torrent.Connection.Turn.{handle_message, turn}
use ufo_torrent.Connection.Start.{serve, closing, start_round, goes_on, Arrival, start}
use ufo_torrent.Connection.Present.{
  IsKnown, IsPresent, IsKnown-insert, IsKeeping, IsKeeping-bind, IsKeeping-if,
  receive_message-IsKeeping, send_data-IsKeeping, next_turn-IsKeeping, handle_have-IsKeeping,
  handle_bit_field-IsKeeping, handle_piece-IsKeeping,
}

-- No exception comes out of the run.
abbrev pub IsCaught {ℓ} : {A : Type ℓ} → Run A → Type 0
IsCaught (done a w) = Unit
IsCaught (raised e w) = ⊥
IsCaught undefined = Unit
IsCaught aborted = Unit
IsCaught waiting = Unit

-- Where the connection is established, its peer is known.
abbrev IsEstablished : Run Bool → Type 0
IsEstablished (done true w) = IsKnown w.connection.peer_id w.manager.peers
IsEstablished (done false w) = Unit
IsEstablished (raised e w) = ⊥
IsEstablished undefined = Unit
IsEstablished aborted = Unit
IsEstablished waiting = Unit

send_interested-IsEstablished :
    (id : Bytes) (w : World) → IsPresent id w → IsEstablished (caught (send_interested w))
unfolding send_interested caught
send_interested-IsEstablished id w p = sent (send_data bytes w) (send_data-IsKeeping id bytes w p)
  where
    bytes : Bytes
    bytes = message_string (message Message.interested [])

    sent : (r : Run (Unit {0})) → RunAll (IsPresent id) r → IsEstablished (caught r)
    sent (done u w') q = rw q.0 q.1
    sent (raised e w') q = tt
    sent undefined q = tt
    sent aborted q = tt
    sent waiting q = tt

-- Where the run ends normally, the peer is known.
abbrev Gives : Run (Unit {0}) → Type 0
Gives (done u w) = IsKnown w.connection.peer_id w.manager.peers
Gives (raised e w) = Unit
Gives undefined = Unit
Gives aborted = Unit
Gives waiting = Unit

Gives-bind {ℓ} :
    {A : Type ℓ} (r : Run A) (f : A → M (Unit {0}))
    → ((a : A) (w : World) → Gives (f a w))
    → Gives (and_then r f)
Gives-bind (done a w) f h = h a w
Gives-bind (raised e w) f h = tt
Gives-bind undefined f h = tt
Gives-bind aborted f h = tt
Gives-bind waiting f h = tt

Gives-if : (b : Bool) (r s : Run (Unit {0})) → Gives r → Gives s → Gives (if b then r else s)
Gives-if true r s h k = h
Gives-if false r s h k = k

receive_bit_field-Gives : (w : World) → Gives (receive_bit_field w)
unfolding receive_bit_field add_peer
receive_bit_field-Gives w = Gives-bind (receive_message w) _ λ m w'.
    Gives-if (m.message_id == Message.bit_field) _ _
      (IsKnown-insert w'.connection.peer_id m.payload w'.manager.peers) tt

caught-after :
    (r : Run (Unit {0})) → Gives r → IsEstablished (caught (and_then r (λ u. send_interested)))
unfolding caught
caught-after (done u w) h = send_interested-IsEstablished w.connection.peer_id w (refl, h)
caught-after (raised e w) h = tt
caught-after undefined h = tt
caught-after aborted h = tt
caught-after waiting h = tt

caught-bind {ℓ} :
    {A : Type ℓ} (r : Run A) (f : A → M (Unit {0}))
    → ((a : A) (w : World) → IsEstablished (caught (f a w)))
    → IsEstablished (caught (and_then r f))
unfolding caught
caught-bind (done a w) f h = h a w
caught-bind (raised e w) f h = tt
caught-bind undefined f h = tt
caught-bind aborted f h = tt
caught-bind waiting f h = tt

establish_new_connection-IsEstablished :
    (s : Option Socket) (w : World) → IsEstablished (establish_new_connection s w)
unfolding establish_new_connection
establish_new_connection-IsEstablished s w =
    caught-bind (perform_handshake s w) _
      λ u w'. caught-after (receive_bit_field w') (receive_bit_field-Gives w')

module _ (sha1 : Bytes → Bytes) (id : Bytes) where
  handle_message-IsKeeping :
      (n : ℕ) (payload : Bytes) → IsKeeping id (handle_message sha1 n payload)
  unfolding handle_message
  handle_message-IsKeeping n payload =
      IsKeeping-if id (n == Message.choke) _ _ (λ w p. p)
        (IsKeeping-if id (n == Message.unchoke) _ _ (λ w p. p)
          (IsKeeping-if id (n == Message.piece) _ _ (handle_piece-IsKeeping id sha1 payload) (
            IsKeeping-if id (n == Message.have) _ _ (handle_have-IsKeeping id payload) (
              IsKeeping-if id (n == Message.bit_field) _ _ (handle_bit_field-IsKeeping id payload)
                (λ w p. p)))))

  turn-IsKeeping : (now later : ℕ) → IsKeeping id (turn sha1 now later)
  unfolding turn
  turn-IsKeeping now later = IsKeeping-bind id receive_message _ (receive_message-IsKeeping id) λ m.
      IsKeeping-bind id (if ltb 10 m.message_id then raise runtime_error else pure tt) _
        (IsKeeping-if id (ltb 10 m.message_id) (raise runtime_error) (pure tt) (λ w p. p)
          (λ w p. p))
        λ u.
          IsKeeping-bind id (handle_message sha1 m.message_id m.payload) _
            (handle_message-IsKeeping m.message_id m.payload) λ u. next_turn-IsKeeping id now later

  serve-IsKeeping : (turns : List (ℕ × ℕ)) → IsKeeping id (serve sha1 turns)
  unfolding serve
  serve-IsKeeping [] w p = elim (Bool-cases (is_complete w.manager)) [
    | inl over ↦ rw (over, serve) p
    | inr more ↦ rw (more, serve) tt
  ]
  serve-IsKeeping ((now, later) ∷ turns) w p = elim (Bool-cases (is_complete w.manager)) [
    | inl over ↦ rw (over, serve) p
    | inr more ↦
        rw (more, serve)
          (IsKeeping-bind id (turn sha1 now later) (λ u. serve sha1 turns)
            (turn-IsKeeping now later) (λ u. serve-IsKeeping turns) w p)
  ]

  remove_peer-known :
      (m : PieceManager) → IsKnown id m.peers → (m' : PieceManager) × (remove_peer id m ≡ ok m')
  unfolding remove_peer
  remove_peer-known m (bits, known) = elim (Bool-cases (is_complete m)) [
    | inl over ↦ (m, rw (over, remove_peer) refl)
    | inr more ↦ (record m { peers = erase id m.peers }, rw (more, known, remove_peer) refl)
  ]

  close_on-IsCaught : (s : Option Socket) (w : World) → IsPresent id w → IsCaught (close_on s w)
  unfolding close_on
  close_on-IsCaught none w p = tt
  close_on-IsCaught (some s) w p = elim (Bool-cases (is_empty w.connection.peer_bit_field)) [
    | inl nothing ↦ rw (nothing, close_on) tt
    | inr some_bits ↦
        let (m', gone) = remove_peer-known w.manager p.1 in rw (some_bits, close_on, p.0, gone) tt
  ]

  closing-IsCaught : (r : Run (Unit {0})) → RunAll (IsPresent id) r → IsCaught (closing sha1 r)
  unfolding closing close_sock
  closing-IsCaught (done u w) p = tt
  closing-IsCaught (raised e w) p = close_on-IsCaught w.connection.sock w p
  closing-IsCaught undefined p = tt
  closing-IsCaught aborted p = tt
  closing-IsCaught waiting p = tt

IsCaught-bind :
    (r : Run (Unit {0})) (f : Unit {0} → M (Unit {0}))
    → IsCaught r
    → ((u : Unit {0}) (w : World) → IsCaught (f u w))
    → IsCaught (and_then r f)
IsCaught-bind (done u w) f h k = k u w
IsCaught-bind (raised e w) f h k = h
IsCaught-bind undefined f h k = tt
IsCaught-bind aborted f h k = tt
IsCaught-bind waiting f h k = tt

module _ (sha1 : Bytes → Bytes) where
  served-IsCaught :
      (turns : List (ℕ × ℕ)) (r : Run Bool)
      → IsEstablished r
      → IsCaught (closing sha1 (and_then r (λ b. if b then serve sha1 turns else pure tt)))
  unfolding closing
  served-IsCaught turns (done true w) h =
      let id = w.connection.peer_id in
      closing-IsCaught sha1 id (serve sha1 turns w) (serve-IsKeeping sha1 id turns w (refl, h))
  served-IsCaught turns (done false w) h = tt
  served-IsCaught turns (raised e w) h = absurd h
  served-IsCaught turns undefined h = tt
  served-IsCaught turns aborted h = tt
  served-IsCaught turns waiting h = tt

  start_round-IsCaught :
      (s : Option Socket) (turns : List (ℕ × ℕ)) (w : World) → IsCaught (start_round sha1 s turns w)
  unfolding start_round
  start_round-IsCaught s turns w =
      served-IsCaught turns (establish_new_connection s w)
        (establish_new_connection-IsEstablished s w)

  -- While no other connection changes the piece manager, no exception comes out of `start`: whatever the
  -- peers send and however the connections fail, each round catches it, and the handler itself does not
  -- throw, since the peer that it removes is one that the manager knows.
  pub start-IsCaught : (arrivals : List Arrival) (w : World) → IsCaught (start sha1 arrivals w)
  unfolding start
  start-IsCaught [] w = elim (Bool-cases (goes_on sha1 w)) [
    | inl more ↦ rw (more, start) tt
    | inr over ↦ rw (over, start) tt
  ]
  start-IsCaught (a ∷ arrivals) w = elim (Bool-cases (goes_on sha1 w)) [
    | inr over ↦ rw (over, start) tt
    | inl more ↦ elim (Bool-cases (is_dummy a.peer)) [
      | inl dummy ↦ rw (more, dummy, start) tt
      | inr real ↦
          rw (more, real, start)
            (IsCaught-bind (start_round sha1 a.opened a.turns w) _
              (start_round-IsCaught a.opened a.turns w) (λ u w'. start-IsCaught arrivals w'))
    ]
  ]
