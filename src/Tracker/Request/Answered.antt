-- ===== src/Tracker/Request/Answered.antt =====
-- Where the peers of a request come from.
use ufo_torrent.Common.{
  ℕ, true, false, List, [], ◌∷◌, ◌++◌, append-nil, append_assoc, Bytes, Option, ◌==◌, Outcome, ok,
  throws, undefined, aborted, runtime_error, >>=-eq-ok, ◌≡◌, refl, sym, ap, subst, ◌∙◌, ◌⊎◌, inl,
  inr, Bool-cases, ==_iff,
}
use ufo_torrent.Bencode.{Value, Entries, dict, find}
use ufo_torrent.Bencode.Decode.{decode, Decoding, returned, threw, out_of_fuel, outcome}
use ufo_torrent.TorrentFile.Key
use ufo_torrent.Tracker.{Peer, decode_response, read_peers}
use ufo_torrent.Tracker.Request.{
  Http, Transfer, broken_off, completed, PeerRetriever, request_url, write_callback, response_peers,
  take_transfer, retrieve_peers,
}

-- The parts of a text, one after another.
abbrev pub flatten : List Bytes → Bytes
flatten [] = []
flatten (part ∷ parts) = part ++ flatten parts

write_callback-flatten :
    (buffer : Bytes) (parts : List Bytes) → write_callback buffer parts ≡ buffer ++ flatten parts
unfolding write_callback
write_callback-flatten buffer [] = sym (append-nil buffer)
write_callback-flatten buffer (part ∷ parts) =
    write_callback-flatten (buffer ++ part) parts ∙ append_assoc buffer part (flatten parts)

-- The transfer is a whole answer with code 200 whose body is a dictionary, and the peers are those
-- under `peers` in it.
abbrev pub IsAnswer : (Bytes → Option ℕ) → Transfer → List Peer → Type 0
IsAnswer lexical_cast transfer ps =
    (parts : List Bytes) × (es : Entries) × (transfer ≡ completed 200 parts)
    × (decode lexical_cast (flatten parts) ≡ returned (dict es))
    × (read_peers (find Key.peers es) ≡ ok ps)

decoded : {A : Type 0} (m : Decoding A) {a : A} → outcome m ≡ ok a → m ≡ returned a
decoded (returned b) e = cc
decoded (threw x) e = cc
decoded Decoding.undefined e = cc
decoded out_of_fuel e = cc

decode_response-dict :
    (v : Value) {ps : List Peer}
    → decode_response v ≡ ok ps
    → (es : Entries) × (v ≡ dict es) × (read_peers (find Key.peers es) ≡ ok ps)
unfolding decode_response
decode_response-dict (dict es) e = (es, refl, e)
decode_response-dict (Value.int z) e = cc
decode_response-dict (Value.unsigned n) e = cc
decode_response-dict (Value.string s) e = cc
decode_response-dict (Value.list vs) e = cc

take_transfer-IsAnswer :
    (lexical_cast : Bytes → Option ℕ) (t : Transfer) {p : Peer} {ps : List Peer}
    → take_transfer lexical_cast t ≡ ok (p ∷ ps)
    → IsAnswer lexical_cast t (p ∷ ps)
unfolding take_transfer response_peers
take_transfer-IsAnswer lexical_cast (broken_off parts) e = cc
take_transfer-IsAnswer lexical_cast (completed code parts) e = elim (Bool-cases (code == 200)) [
  | inl found ↦
      let body = rw (found, write_callback-flatten) at e in
      let (v, whole, taken) =
        >>=-eq-ok (outcome (decode lexical_cast (flatten parts))) decode_response body in
      let (es, is_dict, there) = decode_response-dict v taken in
      (
        parts,
        es,
        ap (λ c. completed c parts) ((==_iff code 200).0 found),
        decoded _ whole ∙ ap returned is_dict,
        there,
      )
  | inr missing ↦ cc (rw missing at e)
]

-- The tracker has answered with code 200.
abbrev IsFound : Transfer → Type 0
IsFound transfer = (parts : List Bytes) × (transfer ≡ completed 200 parts)

-- What an outcome of the request says about the transfer that was made, or that there was no handle.
abbrev pub Explains : (Bytes → Option ℕ) → Http → Transfer → Outcome (List Peer) → Type 0
Explains lexical_cast http transfer (ok []) = http.has_handle ≡ true
Explains lexical_cast http transfer (ok (p ∷ ps)) =
    (http.has_handle ≡ true) × IsAnswer lexical_cast transfer (p ∷ ps)
Explains lexical_cast http transfer (throws e) =
    ((http.has_handle ≡ false) × (e ≡ runtime_error)) ⊎ IsFound transfer
Explains lexical_cast http transfer undefined = IsFound transfer
Explains lexical_cast http transfer aborted = IsFound transfer

take_transfer-IsFound :
    (lexical_cast : Bytes → Option ℕ) (t : Transfer)
    → IsFound t ⊎ (take_transfer lexical_cast t ≡ ok [])
unfolding take_transfer
take_transfer-IsFound lexical_cast (broken_off parts) = inr refl
take_transfer-IsFound lexical_cast (completed code parts) = elim (Bool-cases (code == 200)) [
  | inl found ↦ inl (parts, ap (λ c. completed c parts) ((==_iff code 200).0 found))
  | inr missing ↦ inr (rw missing refl)
]

take_transfer-Explains :
    (lexical_cast : Bytes → Option ℕ) (http : Http) (t : Transfer) (o : Outcome (List Peer))
    → http.has_handle ≡ true
    → take_transfer lexical_cast t ≡ o
    → Explains lexical_cast http t o
take_transfer-Explains lexical_cast http t (ok []) h e = h
take_transfer-Explains lexical_cast http t (ok (p ∷ ps)) h e =
    (h, take_transfer-IsAnswer lexical_cast t e)
take_transfer-Explains lexical_cast http t (throws x) h e =
    elim (take_transfer-IsFound lexical_cast t) [ inl found ↦ inr found | inr empty ↦ cc ]
take_transfer-Explains lexical_cast http t undefined h e =
    elim (take_transfer-IsFound lexical_cast t) [ inl found ↦ found | inr empty ↦ cc ]
take_transfer-Explains lexical_cast http t aborted h e =
    elim (take_transfer-IsFound lexical_cast t) [ inl found ↦ found | inr empty ↦ cc ]

-- What the outcome of asking the tracker says of the request to the URL that was built: peers come only
-- from a whole answer with code 200 whose parts, put together, decode to a dictionary, and they are
-- those under `peers` in it; an exception means that the library gave no handle, or else that a whole
-- answer with code 200 came; every other outcome is no peers.
pub retrieve_peers-Explains :
    (lexical_cast : Bytes → Option ℕ) (http : Http) (r : PeerRetriever) (downloaded : ℕ)
    → Explains lexical_cast http
        (http.perform (request_url r downloaded))
        (retrieve_peers lexical_cast http r downloaded)
unfolding retrieve_peers
retrieve_peers-Explains lexical_cast http r downloaded =
    let transfer = http.perform (request_url r downloaded) in
    elim (Bool-cases http.has_handle) [
      | inl has ↦
          subst (Explains lexical_cast http transfer) (sym (made http has))
            (take_transfer-Explains lexical_cast http transfer _ has refl)
      | inr lacks ↦
          subst (Explains lexical_cast http transfer) (sym (given_up http lacks))
            (inl (lacks, refl))
    ]
  where
    made :
        (h : Http)
        → h.has_handle ≡ true
        → retrieve_peers lexical_cast h r downloaded
          ≡ take_transfer lexical_cast (h.perform (request_url r downloaded))
    made h has = simp has refl

    given_up :
        (h : Http)
        → h.has_handle ≡ false
        → retrieve_peers lexical_cast h r downloaded ≡ throws runtime_error
    given_up h lacks = simp lacks refl
