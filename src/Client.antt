-- ===== src/Client.antt =====
-- src/network_part/TorrentClient.cpp: the constructor, and `downloadFile` up to its loop. The random
-- digits, libtorrent's reading of a torrent file and the disk are arguments.
pub mod Loop
pub mod Prepared
pub mod Identity
pub mod Paced
pub mod Refined
pub mod Session
use ufo_torrent.Common.{
  ℕ, zero, suc, Bool, List, [], ◌∷◌, ◌++◌, Bytes, Option, none, some, Outcome, ok, ◌>>=◌, ◌>>◌,
}
use ufo_torrent.Common.Decimal.{to_string}
use ufo_torrent.Common.Int.{pos}
use ufo_torrent.Files.{Disk, read}
use ufo_torrent.Bencode.Decode.{decode, outcome}
use ufo_torrent.TorrentFile.{TorrentFile}
use ufo_torrent.TorrentFile.Parse.{parse_torrent_file}
use ufo_torrent.PieceManager.State.{PieceManager}
use ufo_torrent.PieceManager.Setup.{new_manager}
use ufo_torrent.Connection.State.{Connection}
use ufo_torrent.Connection.Start.{new_connection}
use ufo_torrent.Tracker.{announce_url}
use ufo_torrent.Tracker.Request.{PeerRetriever, encoded_hash}

abbrev pub peer_id_start : Bytes
peer_id_start = b'-' ∷ b'U' ∷ b'T' ∷ b'2' ∷ b'0' ∷ b'2' ∷ b'1' ∷ b'-' ∷ []

-- The loop of the constructor: the random digits, one after another.
unfoldable pub add_digits : Bytes → List ℕ → Bytes
add_digits peer_id [] = peer_id
add_digits peer_id (d ∷ ds) = add_digits (peer_id ++ to_string d) ds

-- The constructor: the peer identifier of the client.
unfoldable pub new_peer_id : List ℕ → Bytes
unfolding add_digits
new_peer_id digits = add_digits peer_id_start digits

-- What libtorrent reads out of a torrent file.
pub record TorrentInfo : Type 0 where
  pub info_hash : Bytes
  pub total_size : ℕ
  pub name : Bytes

-- What `downloadFile` has made when its loop begins. The loop builds the same `PeerRetriever` anew for
-- each request.
pub record Download : Type 0 where
  pub retriever : PeerRetriever
  pub path : Bytes
  pub connections : List Connection
  pub manager : PieceManager

-- The loop that starts the threads, each with its connection.
unfoldable pub start_threads : Bytes → Bytes → ℕ → List Connection
unfolding new_connection
start_threads peer_id info_hash zero = []
start_threads peer_id info_hash (suc threads) =
    new_connection peer_id info_hash ∷ start_threads peer_id info_hash threads

-- The rest, for a torrent file that both libraries have read; `opens` tells which paths can be opened for the output.
unfoldable pub set_up :
    (Bytes → Bool) → Bytes → ℕ → ℕ → Bytes → TorrentInfo → TorrentFile → Outcome (Option Download)
unfolding announce_url encoded_hash new_manager start_threads
set_up opens peer_id thread_num now download_directory info file = do
  manager ← new_manager (opens (download_directory ++ info.name)) file thread_num now
  ok (
      some (record {
        retriever = record {
          announce_url = announce_url file;
          info_hash = encoded_hash info.info_hash;
          peer_id = peer_id;
          port = pos 8080;
          file_size = info.total_size;
        };
        path = download_directory ++ info.name;
        connections = start_threads peer_id info.info_hash thread_num;
        manager = manager;
      }))

-- The beginning of `downloadFile`; `none` where libtorrent rejects the file and it returns.
unfoldable pub prepare :
    (Bytes → Option ℕ)
    → (Bytes → Option TorrentInfo)
    → (Bytes → Bool)
    → Disk
    → Bytes
    → ℕ
    → ℕ
    → Bytes
    → Bytes
    → Outcome (Option Download)
unfolding read decode parse_torrent_file set_up
prepare lexical_cast read_info opens disk peer_id thread_num now torrent_file_path
      download_directory =
    do
      torrent_data ← read disk torrent_file_path
      elim (read_info torrent_data) [
        | none ↦ ok none
        | some info ↦
            (outcome (decode lexical_cast torrent_data) >>= λ value.
            parse_torrent_file value >>= λ file.
            set_up opens peer_id thread_num now download_directory info file)
      ]
