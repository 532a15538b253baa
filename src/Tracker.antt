-- ===== src/Tracker.antt =====
-- src/network_part/PeerRetriever.cpp: `decodeResponse`, and the choice of the announce URL in
-- src/network_part/TorrentClient.cpp.
pub mod Choice
pub mod Request
use ufo_torrent.Common.{
  [], ℕ, ◌+◌, ◌*◌, ◌%◌, ◌^◌, Bool, false, not, ◌&&◌, ◌||◌, List, ◌∷◌, ◌++◌, Bytes, Option, some,
  ltb, ◌==◌, beq, if◌then◌else◌, length, is_empty, take, Outcome, ok, throws, runtime_error, ◌>>◌,
}
use ufo_torrent.Common.Decimal.{to_string}
use ufo_torrent.Common.Int.{ℤ, pos, negsuc, to_int}
use ufo_torrent.Bencode.{
  Value, Values, Entries, int, unsigned, string, list, dict, nil, cons, leaf, entry, find,
}
use ufo_torrent.TorrentFile.{TorrentFile}
use ufo_torrent.TorrentFile.Key

pub record Peer : Type 0 where
  pub address : Bytes
  pub port : ℤ

-- The address of a compact entry, four numbers with dots between them.
unfoldable pub dotted : ℕ → ℕ → ℕ → ℕ → Bytes
dotted a b c d =
    to_string a ++ (b'.' ∷ (to_string b ++ (b'.' ∷ (to_string c ++ (b'.' ∷ to_string d)))))

-- The loop over the compact form, six bytes for a peer.
unfoldable pub compact_peers : Bytes → List Peer
unfolding dotted
compact_peers (a ∷ b ∷ c ∷ d ∷ h ∷ l ∷ rest) =
    record { address = dotted a b c d; port = pos (h * 2 ^ 8 + l) } ∷ compact_peers rest
compact_peers _ = []

-- The address of an entry of the list, empty where there is none.
unfoldable pub read_address : Option Value → Bytes
read_address (some (string s)) = s
read_address _ = []

-- The port of an entry of the list: zero where there is none or it is no number.
unfoldable pub read_port : Option Value → ℤ
read_port (some (unsigned n)) = to_int n
read_port (some (int z)) = z
read_port _ = pos 0

abbrev is_positive : ℤ → Bool
is_positive (pos n) = ltb 0 n
is_positive (negsuc n) = false

-- The peer of an entry, where it has an address and a positive port.
unfoldable pub read_peer : Entries → List Peer
unfolding find read_address read_port
read_peer es =
    let address = read_address (find Key.ip es) in
    let port = read_port (find Key.port es) in
    if not (is_empty address) && is_positive port
    then record { address = address; port = port } ∷ []
    else []

-- The loop over the list form; an element that is no dictionary is passed over.
unfoldable pub listed_peers : Values → List Peer
unfolding read_peer
listed_peers (cons (dict es) vs) = read_peer es ++ listed_peers vs
listed_peers (cons _ vs) = listed_peers vs
listed_peers nil = []

-- The value under `peers`.
unfoldable pub read_peers : Option Value → Outcome (List Peer)
unfolding compact_peers listed_peers
read_peers (some (string s)) =
    if length s % 6 == 0 then ok (compact_peers s) else throws runtime_error
read_peers (some (list vs)) = ok (listed_peers vs)
read_peers _ = throws runtime_error

-- `decodeResponse`, after the call of the decoder.
unfoldable pub decode_response : Value → Outcome (List Peer)
unfolding read_peers find
decode_response (dict es) = read_peers (find Key.peers es)
decode_response _ = throws runtime_error

-- `url.find(prefix) == 0`.
unfoldable pub has_prefix : Bytes → Bytes → Bool
has_prefix prefix url = beq (take (length prefix) url) prefix

-- "http://" or "https://".
unfoldable pub is_web : Bytes → Bool
unfolding has_prefix
is_web url =
    has_prefix (b'h' ∷ b't' ∷ b't' ∷ b'p' ∷ b':' ∷ b'/' ∷ b'/' ∷ []) url
    || has_prefix (b'h' ∷ b't' ∷ b't' ∷ b'p' ∷ b's' ∷ b':' ∷ b'/' ∷ b'/' ∷ []) url

-- The first web address of the tiers, one after another.
unfoldable pub first_web : List Bytes → Bytes
unfolding is_web
first_web [] = []
first_web (url ∷ urls) = let rest = first_web urls in if is_web url then url else rest

unfoldable pub first_of_tiers : List (List Bytes) → Bytes
unfolding first_web
first_of_tiers [] = []
first_of_tiers (tier ∷ tiers) =
    let rest = first_of_tiers tiers in if is_empty (first_web tier) then rest else first_web tier

-- The announce URL in `downloadFile`.
unfoldable pub announce_url : TorrentFile → Bytes
unfolding is_web first_of_tiers
announce_url t =
    if not (is_empty t.announce) && is_web t.announce
    then t.announce
    else first_of_tiers t.announce_list
