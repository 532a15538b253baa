-- ===== src/Tracker/Request.antt =====
-- The request to the tracker: `retrievePeers` of src/network_part/PeerRetriever.cpp, and the text of the
-- info hash in `downloadFile` of src/network_part/TorrentClient.cpp. The HTTP library is an interface.
-- A `long` has 64 bits.
pub mod Carried
pub mod Answered
use ufo_torrent.Common.{
  ℕ, ◌+◌, ◌-◌, ◌/◌, ◌%◌, ◌^◌, Bool, not, List, [], ◌∷◌, ◌++◌, Bytes, Option, ◌==◌, if◌then◌else◌,
  Outcome, ok, throws, runtime_error, ◌>>=◌,
}
use ufo_torrent.Common.Decimal.{to_string}
use ufo_torrent.Common.Int.{ℤ}
use ufo_torrent.Utils.{hex_digit}
use ufo_torrent.Bencode.{int_text}
use ufo_torrent.Bencode.Decode.{decode, outcome}
use ufo_torrent.Tracker.{Peer, decode_response}

-- What `curl_easy_perform` ends in: an error, or an HTTP code; the body has come in parts before.
pub data Transfer : Type 0 where
  broken_off : List Bytes → Transfer
  completed : ℕ → List Bytes → Transfer

-- Whether `curl_easy_init` gives a handle, and what a request to a URL meets.
pub record Http : Type 0 where
  pub has_handle : Bool
  pub perform : Bytes → Transfer

pub record PeerRetriever : Type 0 where
  pub announce_url : Bytes
  pub info_hash : Bytes
  pub peer_id : Bytes
  pub port : ℤ
  pub file_size : ℕ

-- `WriteCallback`, on each part in turn.
unfoldable pub write_callback : Bytes → List Bytes → Bytes
write_callback buffer [] = buffer
write_callback buffer (part ∷ parts) = write_callback (buffer ++ part) parts

-- The name of a parameter of the query, with the character before it.
abbrev pub info_hash_field : Bytes
info_hash_field = b'i' ∷ b'n' ∷ b'f' ∷ b'o' ∷ b'_' ∷ b'h' ∷ b'a' ∷ b's' ∷ b'h' ∷ b'=' ∷ []

abbrev pub peer_id_field : Bytes
peer_id_field = b'p' ∷ b'e' ∷ b'e' ∷ b'r' ∷ b'_' ∷ b'i' ∷ b'd' ∷ b'=' ∷ []

abbrev pub port_field : Bytes
port_field = b'p' ∷ b'o' ∷ b'r' ∷ b't' ∷ b'=' ∷ []

abbrev pub uploaded_field : Bytes
uploaded_field = b'u' ∷ b'p' ∷ b'l' ∷ b'o' ∷ b'a' ∷ b'd' ∷ b'e' ∷ b'd' ∷ b'=' ∷ b'0' ∷ []

abbrev pub downloaded_field : Bytes
downloaded_field = b'd' ∷ b'o' ∷ b'w' ∷ b'n' ∷ b'l' ∷ b'o' ∷ b'a' ∷ b'd' ∷ b'e' ∷ b'd' ∷ b'=' ∷ []

abbrev pub left_field : Bytes
left_field = b'l' ∷ b'e' ∷ b'f' ∷ b't' ∷ b'=' ∷ []

abbrev pub compact_field : Bytes
compact_field = b'c' ∷ b'o' ∷ b'm' ∷ b'p' ∷ b'a' ∷ b'c' ∷ b't' ∷ b'=' ∷ b'1' ∷ []

-- `fileSize - bytesDownloaded`, of the type `unsigned long`.
unfoldable pub bytes_left : ℕ → ℕ → ℕ
bytes_left file_size downloaded = (file_size + 2 ^ 64 - downloaded) % 2 ^ 64

-- What is written to `urlStream`.
unfoldable pub request_url : PeerRetriever → ℕ → Bytes
unfolding bytes_left
request_url r downloaded =
    r.announce_url
    ++ (b'?' ∷ (info_hash_field ++ r.info_hash)
        ++ (b'&' ∷ (peer_id_field ++ r.peer_id)
            ++ (b'&' ∷ (port_field ++ int_text r.port)
                ++ (b'&' ∷ uploaded_field
                    ++ (b'&' ∷ (downloaded_field ++ to_string downloaded)
                        ++ (b'&' ∷ (left_field ++ to_string (bytes_left r.file_size downloaded))
                            ++ (b'&' ∷ compact_field)))))))

-- `decodeResponse`.
unfoldable pub response_peers : (Bytes → Option ℕ) → Bytes → Outcome (List Peer)
unfolding decode decode_response
response_peers lexical_cast response = outcome (decode lexical_cast response) >>= decode_response

-- What follows `curl_easy_perform`.
unfoldable pub take_transfer : (Bytes → Option ℕ) → Transfer → Outcome (List Peer)
unfolding response_peers write_callback
take_transfer lexical_cast (broken_off parts) = ok []
take_transfer lexical_cast (completed http_code parts) =
    if http_code == 200 then response_peers lexical_cast (write_callback [] parts) else ok []

-- `retrievePeers`.
unfoldable pub retrieve_peers : (Bytes → Option ℕ) → Http → PeerRetriever → ℕ → Outcome (List Peer)
unfolding request_url take_transfer
retrieve_peers lexical_cast http r downloaded =
    if not http.has_handle
    then throws runtime_error
    else take_transfer lexical_cast (http.perform (request_url r downloaded))

-- The loop over the bytes of the info hash, each as `%` and two digits.
unfoldable pub encoded_hash : Bytes → Bytes
unfolding hex_digit
encoded_hash [] = []
encoded_hash (c ∷ cs) = b'%' ∷ hex_digit (c / 16) ∷ hex_digit (c % 16) ∷ encoded_hash cs
