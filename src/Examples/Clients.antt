-- ===== src/Examples/Clients.antt =====
-- A client that asks a tracker, the connection to a peer, and the line of the progress thread.
use ufo_torrent.Common.{
  ℕ, ◌-◌, ◌%◌, Bool, true, false, List, [], ◌∷◌, ◌++◌, Bytes, Option, none, some, ◌==◌,
  if◌then◌else◌, length, replicate, Outcome, ok, aborted, ◌≡◌, refl, arith, Returns,
}
use ufo_torrent.Common.Decimal.{decimal_value, to_string}
use ufo_torrent.Common.Int.{pos}
use ufo_torrent.Utils.Text.{Decodes}
use ufo_torrent.Files.{Disk, read}
use ufo_torrent.Tracker.{Peer}
use ufo_torrent.Tracker.Request.{
  Http, completed, PeerRetriever, encoded_hash, request_url, retrieve_peers,
}
use ufo_torrent.Tracker.Request.Carried.{parameters, stated, request_url-Carries}
use ufo_torrent.Tracker.Request.Answered.{Explains, retrieve_peers-Explains}
use ufo_torrent.PieceManager.State.{PieceManager, is_complete}
use ufo_torrent.Queue.{empty}
use ufo_torrent.Client.{TorrentInfo, Download, new_peer_id, prepare}
use ufo_torrent.Client.Loop.{
  clearing, asking, Client, Reading, History, begun, main, new_client, main_step,
}
use ufo_torrent.Client.Refined.{IsReached, Refills, History-IsReached}
use ufo_torrent.Client.Prepared.{IsRejectedOr, prepare-IsRejectedOr}
use ufo_torrent.Bencode.{Value, Entries, dict, string, entry, leaf, find}
use ufo_torrent.TorrentFile.Key
use ufo_torrent.PieceManager.Setup
use ufo_torrent.Parser.{Library, get_string, split_piece_hashes}
use ufo_torrent.Parser.Pieces.{split_piece_hashes-same}
use ufo_torrent.Socket.Connect.{System, create_connection, port_number}
use ufo_torrent.Socket.Connect.Opened.{IsLeft, create_connection-IsLeft}

-- `boost::lexical_cast` on digits.
abbrev reads_digits : Bytes → Option ℕ
reads_digits s = some (decimal_value 0 s)

abbrev hash : Bytes
hash = replicate 20 200

abbrev retriever : PeerRetriever
retriever = record {
  announce_url = b'h' ∷ b't' ∷ b't' ∷ b'p' ∷ b':' ∷ b'/' ∷ b'/' ∷ b't' ∷ [];
  info_hash = encoded_hash hash;
  peer_id = b'-' ∷ b'1' ∷ [];
  port = pos 8080;
  file_size = 100000;
}

request_url-Carries_example :
    (parameters (request_url retriever 16384) ≡ stated retriever 16384 (100000 - 16384))
    × Decodes (encoded_hash hash) hash
request_url-Carries_example =
    request_url-Carries retriever hash 16384 refl (omega arith) (omega arith)
      (omega arith, omega arith) (omega arith) (omega arith)

-- The tracker answers with one peer in the compact form, in two parts.
abbrev answer : List Bytes
answer =
    (b'd' ∷ b'5' ∷ b':' ∷ b'p' ∷ b'e' ∷ b'e' ∷ b'r' ∷ b's' ∷ [])
    ∷ (b'6' ∷ b':' ∷ 127 ∷ 0 ∷ 0 ∷ 1 ∷ 31 ∷ 144 ∷ b'e' ∷ [])
    ∷ []

abbrev tracker : Http
tracker = record { has_handle = true; perform = λ url. completed 200 answer }

retrieve_peers-Explains_example :
    Explains reads_digits tracker
      (completed 200 answer)
      (retrieve_peers reads_digits tracker retriever 0)
retrieve_peers-Explains_example = retrieve_peers-Explains reads_digits tracker retriever 0

abbrev manager : PieceManager
manager = record {
  peers = [];
  missing_pieces = [];
  ongoing_pieces = [];
  have_pieces = [];
  pending_requests = [];
  downloaded_file = record { content = []; failed = false };
  piece_length = 16384;
  maximum_connections = 1;
  pieces_downloaded_in_interval = 1;
  starting_time = 100;
  total_pieces = 7;
}

-- A system on which every call works, and the peer answers in time.
abbrev os : System
os = record {
  socket = pos 3;
  new_flags = 2;
  is_address = λ ip. true;
  gets_flags = λ blocking. true;
  sets_flags = λ blocking. true;
  is_writable = λ ip port. true;
  so_error = λ ip port. pos 0;
}

create_connection-IsLeft_example :
    IsLeft os (b'a' ∷ []) (port_number (pos 70000)) (create_connection os (b'a' ∷ []) (pos 70000))
create_connection-IsLeft_example = create_connection-IsLeft os (b'a' ∷ []) (pos 70000) refl

-- The main thread asks the tracker and clears the queue, while the thread of a connection comes to it.
abbrev reading : Reading
reading = record { manager = manager; current_time = pos 5; http = tracker }

abbrev asked_peers : List Peer
asked_peers =
    record {
      address = b'1' ∷ b'2' ∷ b'7' ∷ b'.' ∷ b'0' ∷ b'.' ∷ b'0' ∷ b'.' ∷ b'1' ∷ [];
      port = pos 8080;
    }
    ∷ []

abbrev asked : Client
asked = record (new_client 1) {
  place = clearing asked_peers;
  last_peer_query = pos 5;
  requests = record { time = pos 5; url = request_url retriever 0; queued = 0 } ∷ [];
}

abbrev due : Client
due = record (new_client 1) { place = asking (pos 5) 0 }

is_first : main_step reads_digits retriever reading (new_client 1) ≡ ok due
unfolding main_step empty is_complete
is_first = refl

asks : main_step reads_digits retriever reading due ≡ ok asked
unfolding main_step retrieve_peers decimal_value to_string
asks = refl

before_clear : History reads_digits retriever 1 asked
before_clear = main (main begun reading is_first) reading asks

History-IsReached_example :
    IsReached 1 asked × Refills reads_digits retriever reading (clearing asked_peers) asked
History-IsReached_example = History-IsReached before_clear reading

-- A torrent file of five bytes, whose announce URL is no web address.
abbrev torrent_data : Bytes
torrent_data =
    (b'd' ∷ b'8' ∷ b':' ∷ b'a' ∷ b'n' ∷ b'n' ∷ b'o' ∷ b'u' ∷ b'n' ∷ b'c' ∷ b'e' ∷ b'5' ∷ b':' ∷ b'u'
      ∷ b'd' ∷ b'p' ∷ b':' ∷ b'x' ∷ b'4' ∷ b':' ∷ b'i' ∷ b'n' ∷ b'f' ∷ b'o' ∷ b'd' ∷ b'6' ∷ b':'
      ∷ b'l' ∷ b'e' ∷ b'n' ∷ b'g' ∷ b't' ∷ b'h' ∷ b'i' ∷ b'5' ∷ b'e' ∷ b'4' ∷ b':' ∷ b'n' ∷ b'a'
      ∷ b'm' ∷ b'e' ∷ b'1' ∷ b':' ∷ b'a' ∷ b'1' ∷ b'2' ∷ b':' ∷ b'p' ∷ b'i' ∷ b'e' ∷ b'c' ∷ b'e'
      ∷ b' ' ∷ b'l' ∷ b'e' ∷ b'n' ∷ b'g' ∷ b't' ∷ b'h' ∷ b'i' ∷ b'1' ∷ b'6' ∷ b'3' ∷ b'8' ∷ b'4'
      ∷ b'e' ∷ b'6' ∷ b':' ∷ b'p' ∷ b'i' ∷ b'e' ∷ b'c' ∷ b'e' ∷ b's' ∷ b'2' ∷ b'0' ∷ b':' ∷ [])
    ++ (replicate 20 b'h' ++ (b'e' ∷ b'e' ∷ []))

abbrev disk : Disk
disk = (b't' ∷ [], torrent_data) ∷ []

abbrev read_info : Bytes → Option TorrentInfo
read_info content = some (record { info_hash = hash; total_size = 5; name = b'a' ∷ [] })

found : read disk (b't' ∷ []) ≡ ok torrent_data
unfolding read
found = refl

prepare-IsRejectedOr_example :
    Returns (IsRejectedOr read_info (new_peer_id (replicate 12 7)) 2 (b'o' ∷ []) torrent_data) (
      prepare reads_digits read_info
        (λ path. true)
        disk
        (new_peer_id (replicate 12 7))
        2
        0
        (b't' ∷ [])
        (b'o' ∷ []))
prepare-IsRejectedOr_example =
    prepare-IsRejectedOr reads_digits read_info (λ path. true) disk (new_peer_id (replicate 12 7)) 2
      0 (b't' ∷ []) (b'o' ∷ []) torrent_data found

abbrev is_made : Outcome (Option Download) → Bool
is_made (ok (some d)) = true
is_made _ = false

-- The download is made.
made :
    is_made (
      prepare reads_digits read_info
        (λ path. true)
        disk
        (new_peer_id (replicate 12 7))
        2
        0
        (b't' ∷ [])
        (b'o' ∷ []))
    ≡ true
unfolding prepare decimal_value
made = refl

-- The parser on values as items.
abbrev as_entries : Value → Option Entries
as_entries (dict es) = some es
as_entries _ = none

abbrev as_text : Value → Option Bytes
as_text (string s) = some s
as_text _ = none

abbrev library : Library Value Entries
library = record {
  decode = λ s. ok none;
  encode = λ item. ok [];
  get_value = λ es key. find key es;
  as_dictionary = as_entries;
  as_string = as_text;
  as_integer = λ item. none;
}

abbrev two_hashes : Bytes
two_hashes = replicate 40 b'h'

abbrev root : Option Entries
root = some (entry Key.pieces (string two_hashes) leaf)

reads_pieces : get_string library root Key.pieces ≡ ok two_hashes
unfolding get_string find
reads_pieces = refl

split_piece_hashes-same_example :
    split_piece_hashes library root
    ≡ (if length two_hashes % 20 == 0 then ok (Setup.split_piece_hashes two_hashes) else aborted)
split_piece_hashes-same_example = split_piece_hashes-same library root two_hashes reads_pieces
