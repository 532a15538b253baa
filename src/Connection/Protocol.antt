-- ===== src/Connection/Protocol.antt =====
-- What a connection does on the wire.
use ufo_torrent.Common.{
  ℕ, Bool, true, false, not, ◌&&◌, List, [], ◌∷◌, ◌++◌, Bytes, Option, none, some, ltb, ◌==◌,
  if◌then◌else◌, length, Outcome, ok, throws, runtime_error, ◌≡◌, refl, sym, ap, ◌∙◌, ◌⊎◌, inl, inr,
  arith, Bool-cases,
}
use ufo_torrent.Message
use ufo_torrent.Message.{message, message_string, be32}
use ufo_torrent.Piece.{Block}
use ufo_torrent.PieceManager.State.{PieceManager}
use ufo_torrent.PieceManager.Requests.{next_request}
use ufo_torrent.Socket.{Received, got, threw, waits, receive_data}
use ufo_torrent.Connection.State.{
  IsQuiet, IsQuiet-bind, from_outcome-IsQuiet, RunAll, RunAll-and_then, RunAll-imp, raise, pure,
  ◌>>=◌, from_outcome, Socket, Connection, World, done, raised, undefined, aborted, waiting, M,
}
use ufo_torrent.Utils.{bytes_to_int}
use ufo_torrent.PieceManager.Peers.{update_peer}
use ufo_torrent.PieceManager.Receive.{block_received}
use ufo_torrent.Connection.{
  substr, with_socket, send_on, receive_from, send_data, receive, receive_message, send_request,
  request_piece, request_payload,
}
use ufo_torrent.Connection.Turn.{
  handle_message, next_turn, turn, handle_piece, handle_have, handle_bit_field, settle,
}

-- What was sent to the peer.
abbrev pub sent_on : Option Socket → List Bytes
sent_on none = []
sent_on (some s) = s.output

abbrev pub sent : Connection → List Bytes
sent c = sent_on c.sock

settle-IsQuiet : (r : PieceManager × Outcome PieceManager) → IsQuiet (settle r)
settle-IsQuiet (m, ok m') w = refl
settle-IsQuiet (m, throws e) w = refl
settle-IsQuiet (m, Outcome.undefined) w = tt
settle-IsQuiet (m, Outcome.aborted) w = tt

handle_have-IsQuiet : (payload : Bytes) → IsQuiet (handle_have payload)
unfolding handle_have
handle_have-IsQuiet payload =
    IsQuiet-bind (from_outcome (bytes_to_int payload)) _
      (from_outcome-IsQuiet (bytes_to_int payload))
      (λ index w. settle-IsQuiet (w.manager, update_peer w.connection.peer_id index w.manager) w)

handle_piece-IsQuiet :
    (sha1 : Bytes → Bytes) (payload : Bytes) → IsQuiet (handle_piece sha1 payload)
unfolding handle_piece
handle_piece-IsQuiet sha1 payload w =
    read (record w { connection = record w.connection { request_pending = false } })
  where
    read : IsQuiet (do
      index_bytes ← from_outcome (substr 0 4 payload)
      index ← from_outcome (bytes_to_int index_bytes)
      begin_bytes ← from_outcome (substr 4 4 payload)
      begin ← from_outcome (bytes_to_int begin_bytes)
      content ← from_outcome (substr 8 (length payload) payload)
      (λ w. settle (block_received sha1 index begin content w.manager) w))
    read =
        IsQuiet-bind (from_outcome (substr 0 4 payload)) _
          (from_outcome-IsQuiet (substr 0 4 payload))
          λ index_bytes.
            IsQuiet-bind (from_outcome (bytes_to_int index_bytes)) _
              (from_outcome-IsQuiet (bytes_to_int index_bytes))
              λ index.
                IsQuiet-bind (from_outcome (substr 4 4 payload)) _
                  (from_outcome-IsQuiet (substr 4 4 payload))
                  λ begin_bytes.
                    IsQuiet-bind (from_outcome (bytes_to_int begin_bytes)) _
                      (from_outcome-IsQuiet (bytes_to_int begin_bytes))
                      λ begin.
                        IsQuiet-bind (from_outcome (substr 8 (length payload) payload)) _
                          (from_outcome-IsQuiet (substr 8 (length payload) payload))
                          λ content w.
                            settle-IsQuiet (block_received sha1 index begin content w.manager) w

IsQuiet-if : (b : Bool) (m k : M (Unit {0})) → IsQuiet m → IsQuiet k → IsQuiet (if b then m else k)
IsQuiet-if true m k h i = h
IsQuiet-if false m k h i = i

handle_message-IsQuiet :
    (sha1 : Bytes → Bytes) (id : ℕ) (payload : Bytes) → IsQuiet (handle_message sha1 id payload)
unfolding handle_message handle_bit_field
handle_message-IsQuiet sha1 id payload =
    IsQuiet-if (id == Message.choke) _ _ (λ w. refl)
      (IsQuiet-if (id == Message.unchoke) _ _ (λ w. refl)
        (IsQuiet-if (id == Message.piece) _ _ (handle_piece-IsQuiet sha1 payload) (
          IsQuiet-if (id == Message.have) _ _ (handle_have-IsQuiet payload)
            (IsQuiet-if (id == Message.bit_field) _ _ (λ w. refl) (λ w. refl)))))

-- What was sent stays as it was.
abbrev pub SentSame : Connection → World → Type 0
SentSame c w' = sent w'.connection ≡ sent c

receive_from-SentSame :
    (o : Option Socket) (size : ℕ) (w : World)
    → w.connection.sock ≡ o
    → RunAll (SentSame w.connection) (receive_from o size w)
unfolding receive_from
receive_from-SentSame none size w e = refl
receive_from-SentSame (some s) size w e = received (receive_data size s.input)
  where
    received :
        (r : Received Bytes)
        → RunAll (SentSame w.connection) (elim r [
          | got bytes i ↦ done bytes (with_socket (record s { input = i }) w)
          | threw e ↦ raised e w
          | waits ↦ waiting
        ])
    received (got bytes i) = sym (ap sent_on e)
    received (threw x) = refl
    received waits = tt

-- One request was sent, to a peer that does not choke, and is pending.
pub record Requested (c : Connection) (w' : World) : Type 0 where
  pub block : Block
  pub now_sent :
      sent w'.connection
      ≡ sent c ++ (message_string (message Message.request (request_payload block)) ∷ [])
  pub unchoked : w'.connection.choked ≡ false

-- What a turn may do on the wire.
abbrev pub MaySend : Connection → World → Type 0
MaySend c w' = SentSame c w' ⊎ Requested c w'

-- Nothing was sent, or the bytes were; the choke flag is as before.
record Sending (bytes : Bytes) (c : Connection) (w' : World) : Type 0 where
  output : SentSame c w' ⊎ (sent w'.connection ≡ sent c ++ (bytes ∷ []))
  choke : w'.connection.choked ≡ c.choked

send_on-Sending :
    (o : Option Socket) (bytes : Bytes) (w : World)
    → w.connection.sock ≡ o
    → RunAll (Sending bytes w.connection) (send_on o bytes w)
unfolding send_on
send_on-Sending none bytes w e = record { output = inl refl; choke = refl }
send_on-Sending (some s) bytes w e = elim (Bool-cases s.broken) [
  | inl bad ↦ rw (bad, send_on) (record { output = inl refl; choke = refl })
  | inr good ↦
      rw (good, send_on)
        (record { output = inr (ap (λ o. sent_on o ++ (bytes ∷ [])) (sym e)); choke = refl })
]

send_data-Sending :
    (bytes : Bytes) (w : World) → RunAll (Sending bytes w.connection) (send_data bytes w)
unfolding send_data
send_data-Sending [] w = record { output = inl refl; choke = refl }
send_data-Sending (b ∷ bs) w = send_on-Sending w.connection.sock (b ∷ bs) w refl

Sending-MaySend :
    (b : Block) (c : Connection) (w' : World)
    → c.choked ≡ false
    → Sending (message_string (message Message.request (request_payload b))) c w'
    → MaySend c w'
Sending-MaySend b c w' u s = elim s.output [
  | inl same ↦ inl same
  | inr now ↦ inr (record { block = b; now_sent = now; unchoked = s.choke ∙ u })
]

send_request-MaySend :
    (o : Option Block) (w : World)
    → w.connection.choked ≡ false
    → RunAll (MaySend w.connection) (send_request o w)
unfolding send_request
send_request-MaySend none w c = inl refl
send_request-MaySend (some b) w c =
    let bytes = message_string (message Message.request (request_payload b)) in
    RunAll-and_then (Sending bytes w.connection) (MaySend w.connection) (send_data bytes w) _
      (send_data-Sending bytes w) (λ w' s. Sending-MaySend b w.connection w' c s)
      (λ u w' s. elim s.output [
        | inl same ↦ inl same
        | inr now ↦ inr (record { block = b; now_sent = now; unchoked = s.choke ∙ c })
      ])

request_piece-MaySend :
    (now later : ℕ) (w : World)
    → w.connection.choked ≡ false
    → RunAll (MaySend w.connection) (request_piece now later w)
unfolding request_piece
request_piece-MaySend now later w c =
    answered (next_request now later w.connection.peer_id w.manager)
  where
    answered :
        (r : Outcome (Option Block × PieceManager))
        → RunAll (MaySend w.connection) (elim r [
          | ok (b, m) ↦ send_request b (record w { manager = m })
          | throws e ↦ raised e w
          | Outcome.undefined ↦ undefined
          | Outcome.aborted ↦ aborted
        ])
    answered (ok (b, m)) = send_request-MaySend b (record w { manager = m }) c
    answered (throws e) = inl refl
    answered Outcome.undefined = tt
    answered Outcome.aborted = tt

next_turn-MaySend :
    (now later : ℕ) (w : World) → RunAll (MaySend w.connection) (next_turn now later w)
unfolding next_turn
next_turn-MaySend now later w =
    elim (Bool-cases (not w.connection.choked && not w.connection.request_pending)) [
      | inl free ↦ rw (free, next_turn) (request_piece-MaySend now later w (ground (arith, free)))
      | inr busy ↦ rw (busy, next_turn) (inl refl)
    ]

IsQuiet-SentSame :
    (m : M (Unit {0})) (c : Connection) (w : World)
    → IsQuiet m
    → SentSame c w
    → RunAll (SentSame c) (m w)
IsQuiet-SentSame m c w q e =
    RunAll-imp (λ w'. w'.connection.sock ≡ w.connection.sock) (SentSame c) (m w) (q w)
      (λ w' same. ap sent_on same ∙ e)

MaySend-after :
    (c : Connection) (w w' : World) → SentSame c w → MaySend w.connection w' → MaySend c w'
MaySend-after c w w' e (inl same) = inl (same ∙ e)
MaySend-after c w w' e (inr r) = inr (record {
  block = r.block;
  now_sent =
      r.now_sent
      ∙ ap (λ o. o ++ (message_string (message Message.request (request_payload r.block)) ∷ [])) e;
  unchoked = r.unchoked;
})

-- Whatever a turn meets, and also where it throws: it sends one request message at most, and nothing else, and it sends one only to a peer that does not choke by then.
pub turn-MaySend :
    (sha1 : Bytes → Bytes) (now later : ℕ) (w : World)
    → RunAll (MaySend w.connection) (turn sha1 now later w)
unfolding turn receive_message receive
turn-MaySend sha1 now later w =
    RunAll-and_then (SentSame w.connection) (MaySend w.connection) (receive_message w) _
      (RunAll-and_then (SentSame w.connection) (SentSame w.connection) (receive 0 w) _
        (receive_from-SentSame w.connection.sock 0 w refl) (λ w' e. e) (λ a w' e. e))
      (λ w' e. inl e)
      λ m w₁ e₁.
        RunAll-and_then (SentSame w.connection) (MaySend w.connection)
          ((if ltb 10 m.message_id then raise runtime_error else pure tt) w₁) _
          (IsQuiet-SentSame _ w.connection w₁
            (IsQuiet-if (ltb 10 m.message_id) (raise runtime_error) (pure tt) (λ w. refl)
              (λ w. refl))
            e₁)
          (λ w' e. inl e)
          λ _ w₂ e₂.
            RunAll-and_then (SentSame w.connection) (MaySend w.connection)
              (handle_message sha1 m.message_id m.payload w₂) _
              (IsQuiet-SentSame (handle_message sha1 m.message_id m.payload) w.connection w₂
                (handle_message-IsQuiet sha1 m.message_id m.payload) e₂)
              (λ w' e. inl e)
              λ _ w₃ e₃.
                RunAll-imp (MaySend w₃.connection) (MaySend w.connection) (next_turn now later w₃)
                  (next_turn-MaySend now later w₃) (λ w' h. MaySend-after w.connection w₃ w' e₃ h)
