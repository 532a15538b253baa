-- ===== src/Connection/Present.antt =====
-- A turn of a connection keeps its peer among those that the manager knows.
use ufo_torrent.Common.{
  ℕ, Bool, true, false, not, ◌&&◌, [], ◌∷◌, Bytes, Option, none, some, if◌then◌else◌, length,
  Outcome, ok, throws, ◌≡◌, refl, sym, subst, inl, inr, Bool-cases, Option-cases, beq_refl, Returns,
  Returns-bind, Returns-after, Returns-if, Returns-imp,
}
use ufo_torrent.Message
use ufo_torrent.Message.{message, message_string}
use ufo_torrent.Socket.{Received, got, threw, waits, receive_data}
use ufo_torrent.Piece
use ufo_torrent.Piece.{Piece, Block, is_hash_matching, piece_data}
use ufo_torrent.Utils.{bytes_to_int, set_piece}
use ufo_torrent.Files.Laws.{lookup-insert}
use ufo_torrent.PieceManager.State.{PieceManager, PeerMap, lookup, insert}
use ufo_torrent.PieceManager.Peers.{add_peer, update_peer}
use ufo_torrent.PieceManager.Requests.{next_request}
use ufo_torrent.PieceManager.Receive.{
  block_received, receive_into, check_piece, settle_piece, write, finish_piece, find_piece,
}
use ufo_torrent.PieceManager.Untouched.{AskUntouched, next_request-untouched}
use ufo_torrent.Connection.State.{
  Socket, World, done, raised, undefined, aborted, waiting, M, ◌>>=◌, from_outcome, RunAll,
  RunAll-and_then,
}
use ufo_torrent.Connection.{
  send_on, send_data, receive_from, receive, receive_message, substr, send_request, request_piece,
  request_payload, with_socket,
}
use ufo_torrent.Connection.Turn.{settle, handle_have, handle_bit_field, next_turn, handle_piece}

-- The peer is known to the manager.
abbrev pub IsKnown : Bytes → PeerMap → Type 0
IsKnown id peers = (bits : Bytes) × (lookup id peers ≡ some bits)

-- The peer of the connection is that one, and the manager knows it.
abbrev pub IsPresent : Bytes → World → Type 0
IsPresent id w = (w.connection.peer_id ≡ id) × IsKnown id w.manager.peers

pub IsKnown-insert : (id bits : Bytes) (peers : PeerMap) → IsKnown id (insert id bits peers)
IsKnown-insert id bits peers = (bits, rw (lookup-insert id id bits peers, beq_refl id) refl)

module _ (id : Bytes) where
  -- A run that starts where the peer is present leaves it present, by an exception too.
  abbrev pub IsKeeping {ℓ} : {A : Type ℓ} → M A → Type 0
  IsKeeping m = (w : World) → IsPresent id w → RunAll (IsPresent id) (m w)

  pub IsKeeping-bind {ℓ κ} :
      {A : Type ℓ} {B : Type κ} (m : M A) (f : A → M B)
      → IsKeeping m
      → ((a : A) → IsKeeping (f a))
      → IsKeeping (m >>= f)
  IsKeeping-bind m f h k w p =
      RunAll-and_then (IsPresent id) (IsPresent id) (m w) f (h w p) (λ w' q. q) (λ a w' q. k a w' q)

  pub IsKeeping-if {ℓ} :
      {A : Type ℓ} (b : Bool) (m k : M A)
      → IsKeeping m
      → IsKeeping k
      → IsKeeping (if b then m else k)
  IsKeeping-if true m k h i = h
  IsKeeping-if false m k h i = i

  from_outcome-IsKeeping {ℓ} : {A : Type ℓ} (o : Outcome A) → IsKeeping (from_outcome o)
  from_outcome-IsKeeping (ok a) w p = p
  from_outcome-IsKeeping (throws e) w p = p
  from_outcome-IsKeeping Outcome.undefined w p = tt
  from_outcome-IsKeeping Outcome.aborted w p = tt

  -- A call of the manager that keeps the peers.
  settle-IsKeeping :
      (m : PieceManager) (o : Outcome PieceManager) (w : World)
      → w.connection.peer_id ≡ id
      → IsKnown id m.peers
      → Returns (λ (m' : PieceManager). IsKnown id m'.peers) o
      → RunAll (IsPresent id) (settle (m, o) w)
  settle-IsKeeping m (ok m') w e k r = (e, r)
  settle-IsKeeping m (throws x) w e k r = (e, k)
  settle-IsKeeping m Outcome.undefined w e k r = tt
  settle-IsKeeping m Outcome.aborted w e k r = tt

  receive_from-IsKeeping : (o : Option Socket) (size : ℕ) → IsKeeping (receive_from o size)
  unfolding receive_from
  receive_from-IsKeeping none size w p = p
  receive_from-IsKeeping (some s) size w p = received (receive_data size s.input)
    where
      received :
          (r : Received Bytes)
          → RunAll (IsPresent id) (elim r [
            | got bytes i ↦ done bytes (with_socket (record s { input = i }) w)
            | threw e ↦ raised e w
            | waits ↦ waiting
          ])
      received (got bytes i) = p
      received (threw e) = p
      received waits = tt

  pub receive_message-IsKeeping : IsKeeping receive_message
  unfolding receive_message receive
  receive_message-IsKeeping =
      IsKeeping-bind (receive 0) _ (λ w p. receive_from-IsKeeping w.connection.sock 0 w p)
        (λ reply w p. p)

  pub send_data-IsKeeping : (bytes : Bytes) → IsKeeping (send_data bytes)
  unfolding send_data send_on
  send_data-IsKeeping [] w p = p
  send_data-IsKeeping (b ∷ bs) w p = sent w.connection.sock
    where
      sent : (o : Option Socket) → RunAll (IsPresent id) (send_on o (b ∷ bs) w)
      sent none = p
      sent (some s) = elim (Bool-cases s.broken) [
        | inl broken ↦ rw (broken, send_on) p
        | inr sends ↦ rw (sends, send_on) p
      ]

  next_request-peers :
      (now later : ℕ) (m : PieceManager)
      → Returns
          (λ (r : Option Block × PieceManager). r.1.peers ≡ m.peers)
          (next_request now later id m)
  next_request-peers now later m =
      Returns-imp (AskUntouched m) (λ (r : Option Block × PieceManager). r.1.peers ≡ m.peers)
        (next_request now later id m) (next_request-untouched m now later id) (λ r u. u.1)

  send_request-IsKeeping : (o : Option Block) → IsKeeping (send_request o)
  unfolding send_request
  send_request-IsKeeping none w p = p
  send_request-IsKeeping (some b) w p =
      let bytes = message_string (message Message.request (request_payload b)) in
      RunAll-and_then (IsPresent id) (IsPresent id) (send_data bytes w) _
        (send_data-IsKeeping bytes w p) (λ w' q. q) (λ u w' q. q)

  request_piece-IsKeeping : (now later : ℕ) → IsKeeping (request_piece now later)
  unfolding request_piece
  request_piece-IsKeeping now later w p =
      answered (next_request now later w.connection.peer_id w.manager) (
        subst
          (λ i.
            Returns (λ (r : Option Block × PieceManager). r.1.peers ≡ w.manager.peers)
              (next_request now later i w.manager))
          (sym p.0) (next_request-peers now later w.manager))
    where
      answered :
          (r : Outcome (Option Block × PieceManager))
          → Returns (λ (r : Option Block × PieceManager). r.1.peers ≡ w.manager.peers) r
          → RunAll (IsPresent id) (elim r [
            | ok (b, m) ↦ send_request b (record w { manager = m })
            | throws e ↦ raised e w
            | Outcome.undefined ↦ undefined
            | Outcome.aborted ↦ aborted
          ])
      answered (ok (b, m)) same =
          send_request-IsKeeping b (record w { manager = m })
            (p.0, subst (IsKnown id) (sym same) p.1)
      answered (throws e) same = p
      answered Outcome.undefined same = tt
      answered Outcome.aborted same = tt

  pub next_turn-IsKeeping : (now later : ℕ) → IsKeeping (next_turn now later)
  unfolding next_turn
  next_turn-IsKeeping now later w p =
      elim (Bool-cases (not w.connection.choked && not w.connection.request_pending)) [
        | inl free ↦ rw (free, next_turn) (request_piece-IsKeeping now later w p)
        | inr busy ↦ rw (busy, next_turn) p
      ]

  update_peer-IsKnown :
      (index : ℕ) (m : PieceManager)
      → Returns (λ (m' : PieceManager). IsKnown id m'.peers) (update_peer id index m)
  unfolding update_peer
  update_peer-IsKnown index m = elim (Option-cases (lookup id m.peers)) [
    | inl unknown ↦ rw (unknown, update_peer) tt
    | inr (bits, known) ↦
        rw (known, update_peer)
          (Returns-after (λ (m' : PieceManager). IsKnown id m'.peers) (set_piece bits index) _
            (λ b. IsKnown-insert id b m.peers))
  ]

  settle_piece-peers :
      (matching : Bool) (p : Piece) (m : PieceManager)
      → IsKnown id m.peers
      → Returns (λ (m' : PieceManager). IsKnown id m'.peers) (settle_piece matching p m)
  unfolding settle_piece finish_piece write
  settle_piece-peers false p m k = k
  settle_piece-peers true p m k =
      Returns-bind (λ (w : PieceManager). IsKnown id w.peers)
        (λ (m' : PieceManager). IsKnown id m'.peers) (write p m) _
        (Returns-after (λ (w : PieceManager). IsKnown id w.peers) (piece_data p) _ (λ bytes. k))
        (λ w known. known)

  block_received-peers :
      (sha1 : Bytes → Bytes) (i offset : ℕ) (content : Bytes) (m : PieceManager)
      → IsKnown id m.peers
      → Returns
          (λ (m' : PieceManager). IsKnown id m'.peers)
          (block_received sha1 i offset content m).1
  unfolding block_received receive_into check_piece
  block_received-peers sha1 i offset content m k =
      elim (Option-cases (find_piece i m.ongoing_pieces)) [
        | inl unknown ↦ rw (unknown, block_received) tt
        | inr (p, found) ↦
            rw (found, block_received)
              (Returns-after (λ (m' : PieceManager). IsKnown id m'.peers)
                (Piece.block_received offset content p) _
                λ q.
                  Returns-if (λ (m' : PieceManager). IsKnown id m'.peers) (Piece.is_complete q) _ _
                    (Returns-after (λ (m' : PieceManager). IsKnown id m'.peers)
                      (is_hash_matching sha1 q) _ (λ matching. settle_piece-peers matching q _ k))
                    k)
      ]

  pub handle_have-IsKeeping : (payload : Bytes) → IsKeeping (handle_have payload)
  unfolding handle_have
  handle_have-IsKeeping payload w p =
      IsKeeping-bind (from_outcome (bytes_to_int payload)) _
        (from_outcome-IsKeeping (bytes_to_int payload))
        (λ index w' q.
          settle-IsKeeping w'.manager (update_peer w'.connection.peer_id index w'.manager) w' q.0
            q.1
            (subst
              (λ i.
                Returns (λ (m' : PieceManager). IsKnown id m'.peers)
                  (update_peer i index w'.manager))
              (sym q.0) (update_peer-IsKnown index w'.manager)))
        w p

  pub handle_bit_field-IsKeeping : (payload : Bytes) → IsKeeping (handle_bit_field payload)
  unfolding handle_bit_field add_peer
  handle_bit_field-IsKeeping payload w p = (p.0, rw p.0 (IsKnown-insert id payload w.manager.peers))

  module _ (sha1 : Bytes → Bytes) where
    pub handle_piece-IsKeeping : (payload : Bytes) → IsKeeping (handle_piece sha1 payload)
    unfolding handle_piece block_received
    handle_piece-IsKeeping payload w p =
        IsKeeping-bind (from_outcome (substr 0 4 payload)) _
          (from_outcome-IsKeeping (substr 0 4 payload))
          (λ a.
            IsKeeping-bind (from_outcome (bytes_to_int a)) _
              (from_outcome-IsKeeping (bytes_to_int a))
              (λ i.
                IsKeeping-bind (from_outcome (substr 4 4 payload)) _
                  (from_outcome-IsKeeping (substr 4 4 payload))
                  (λ b.
                    IsKeeping-bind (from_outcome (bytes_to_int b)) _
                      (from_outcome-IsKeeping (bytes_to_int b))
                      (λ begin.
                        IsKeeping-bind (from_outcome (substr 8 (length payload) payload)) _
                          (from_outcome-IsKeeping (substr 8 (length payload) payload))
                          (λ content w' q.
                            settle-IsKeeping (block_received sha1 i begin content w'.manager).0
                              (block_received sha1 i begin content w'.manager).1 w' q.0 q.1
                              (block_received-peers sha1 i begin content w'.manager q.1))))))
          (record w { connection = record w.connection { request_pending = false } }) p
