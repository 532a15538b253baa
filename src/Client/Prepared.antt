-- ===== src/Client/Prepared.antt =====
-- What is there when the loop of `downloadFile` begins.
use ufo_torrent.Common.{
  ℕ, zero, suc, Bool, true, List, ◌++◌, All, Bytes, Option, none, some, length, ok, ◌>>=◌, ◌≡◌,
  refl, ap, inl, inr, Option-cases, Returns, Returns-self, Returns-bind, Returns-imp,
}
use ufo_torrent.Files.{Disk, read}
use ufo_torrent.Bencode.{Value}
use ufo_torrent.Bencode.Decode.{decode, outcome, Decoding, returned, threw, out_of_fuel}
use ufo_torrent.Bencode.Total.{Ends, decode-Ends}
use ufo_torrent.TorrentFile.{TorrentFile}
use ufo_torrent.TorrentFile.Parse.{parse_torrent_file}
use ufo_torrent.TorrentFile.Lengths.{NoInt}
use ufo_torrent.TorrentFile.Lost.{new_manager-failed}
use ufo_torrent.PieceManager.State.{PieceManager}
use ufo_torrent.PieceManager.Setup.{new_manager}
use ufo_torrent.Connection.State.{Connection}
use ufo_torrent.Connection.Start.{new_connection}
use ufo_torrent.Tracker.Choice.{IsEmptyOrWeb, announce_url-IsEmptyOrWeb}
use ufo_torrent.Client.{TorrentInfo, Download, start_threads, set_up, prepare}

-- The connections of the threads, all with the hash and the identifier of the client.
abbrev pub AreConnections : Bytes → Bytes → ℕ → List Connection → Type 0
AreConnections peer_id info_hash threads cs =
    (length cs ≡ threads)
    × All (λ c. (c.info_hash ≡ info_hash) × ((c.client_id ≡ peer_id) × (c.sock ≡ none))) cs

start_threads-AreConnections :
    (peer_id info_hash : Bytes) (threads : ℕ)
    → AreConnections peer_id info_hash threads (start_threads peer_id info_hash threads)
unfolding start_threads new_connection
start_threads-AreConnections peer_id info_hash zero = (refl, tt)
start_threads-AreConnections peer_id info_hash (suc threads) =
    let (many, all_right) = start_threads-AreConnections peer_id info_hash threads in
    (ap suc many, ((refl, (refl, refl)), all_right))

-- What holds of a download that libtorrent has given this reading of.
abbrev pub IsPrepared : Bytes → ℕ → Bytes → TorrentInfo → Download → Type 0
IsPrepared peer_id threads directory info d =
    IsEmptyOrWeb d.retriever.announce_url
    × ((d.retriever.file_size ≡ info.total_size)
        × ((d.path ≡ directory ++ info.name)
            × (AreConnections peer_id info.info_hash threads d.connections
                × (d.manager.downloaded_file.failed ≡ true))))

-- A file that libtorrent rejects is no download; any other download is prepared.
abbrev pub IsRejectedOr :
    (Bytes → Option TorrentInfo) → Bytes → ℕ → Bytes → Bytes → Option Download → Type 0
IsRejectedOr read_info peer_id threads directory content none = read_info content ≡ none
IsRejectedOr read_info peer_id threads directory content (some d) =
    (info : TorrentInfo) × (read_info content ≡ some info)
    × IsPrepared peer_id threads directory info d

outcome-NoInt : (m : Decoding Value) → Ends NoInt m → Returns NoInt (outcome m)
outcome-NoInt (returned v) h = h
outcome-NoInt (threw e) h = tt
outcome-NoInt Decoding.undefined h = tt
outcome-NoInt out_of_fuel h = absurd h

-- The part of a download of a torrent file that only libtorrent has read so far.
module _ (opens : Bytes → Bool) (peer_id : Bytes) (threads now : ℕ) (directory : Bytes)
    (info : TorrentInfo) where
  abbrev IsSetUp : Option Download → Type 0
  IsSetUp none = ⊥
  IsSetUp (some d) = IsPrepared peer_id threads directory info d

  set_up-IsSetUp :
      (v : Value) (t : TorrentFile)
      → NoInt v
      → parse_torrent_file v ≡ ok t
      → Returns IsSetUp (set_up opens peer_id threads now directory info t)
  unfolding set_up
  set_up-IsSetUp v t h e =
      Returns-bind (λ (m : PieceManager). m.downloaded_file.failed ≡ true) IsSetUp
        (new_manager (opens (directory ++ info.name)) t threads now) _
        (new_manager-failed v (opens (directory ++ info.name)) t threads now h e)
        (λ m failed. (
          announce_url-IsEmptyOrWeb t,
          (refl, (refl, (start_threads-AreConnections peer_id info.info_hash threads, failed))),
        ))

  -- The decoder and the parser, and what follows.
  read_in-IsSetUp :
      (lexical_cast : Bytes → Option ℕ) (content : Bytes)
      → Returns IsSetUp (
          outcome (decode lexical_cast content) >>= λ value.
          parse_torrent_file value >>= λ file. set_up opens peer_id threads now directory info file)
  read_in-IsSetUp lexical_cast content =
      Returns-bind NoInt IsSetUp (outcome (decode lexical_cast content)) _
        (outcome-NoInt (decode lexical_cast content) (decode-Ends lexical_cast content))
        (λ v no_int.
          Returns-bind (λ t. parse_torrent_file v ≡ ok t) IsSetUp (parse_torrent_file v) _
            (Returns-self (parse_torrent_file v)) (λ t e. set_up-IsSetUp v t no_int e))

-- What `downloadFile` has made when its loop begins, if it gets there: libtorrent has read the content
-- of the torrent file, or else nothing was made and it returns; the announce URL is a web address or empty;
-- the size is that of libtorrent, and the path its name behind the directory; there is a connection for
-- each thread, none of them open, with the identifier of the client and the hash of libtorrent; and the
-- output file has failed already, since the parser sets no length of a file.
pub prepare-IsRejectedOr :
    (lexical_cast : Bytes → Option ℕ) (read_info : Bytes → Option TorrentInfo)
    (opens : Bytes → Bool) (disk : Disk) (peer_id : Bytes) (threads now : ℕ)
    (path directory content : Bytes)
    → read disk path ≡ ok content
    → Returns
        (IsRejectedOr read_info peer_id threads directory content)
        (prepare lexical_cast read_info opens disk peer_id threads now path directory)
unfolding prepare
prepare-IsRejectedOr lexical_cast read_info opens disk peer_id threads now path directory content
      e =
    rw e (elim (Option-cases (read_info content)) [
      | inl rejected ↦ rw rejected rejected
      | inr (info, taken) ↦ rw taken (
          Returns-imp (IsSetUp opens peer_id threads now directory info) _ _
            (read_in-IsSetUp opens peer_id threads now directory info lexical_cast content)
            (kept info taken))
    ])
  where
    kept :
        (info : TorrentInfo)
        → read_info content ≡ some info
        → (d : Option Download) → IsSetUp opens peer_id threads now directory info d
        → Returns (IsRejectedOr read_info peer_id threads directory content) (ok d)
    kept info taken none h = absurd h
    kept info taken (some d) h = (info, taken, h)
