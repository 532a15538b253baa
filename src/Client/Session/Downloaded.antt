-- ===== src/Client/Session/Downloaded.antt =====
-- What is there when the loop of the client ends.
use ufo_torrent.Common.{ℕ, true, All, Bytes, Option, ◌≡◌, ◌⊎◌}
use ufo_torrent.TorrentFile.{TorrentFile}
use ufo_torrent.PieceManager.State.{PieceManager, is_complete}
use ufo_torrent.PieceManager.Setup.{split_piece_hashes}
use ufo_torrent.PieceManager.Steps.{Reach, here, next}
use ufo_torrent.PieceManager.Complete.{HasAll}
use ufo_torrent.PieceManager.Labels.{IsVerified}
use ufo_torrent.Piece.{Piece}
use ufo_torrent.PieceManager.OnDisk.{IsFitting}
use ufo_torrent.PieceManager.Stored.{IsSaved}
use ufo_torrent.Tracker.Request.{PeerRetriever}
use ufo_torrent.Client.Loop.{Place, over, Client, History}
use ufo_torrent.Client.Session.{Session, begun, main, thread, call}

-- The loop goes on.
abbrev IsGoing : Place → Type 0
IsGoing over = ⊥
IsGoing _ = Unit

-- The manager was complete, if the loop is over.
abbrev IsOverFor : PieceManager → Client → Type 0
IsOverFor m d = (is_complete m ≡ true) ⊎ IsGoing d.place

-- There was a complete manager before, since the start.
abbrev WasComplete : (Bytes → Bytes) → PieceManager → PieceManager → Type 0
WasComplete sha1 start m =
    (done : PieceManager) × (is_complete done ≡ true) × (Reach sha1 start done × Reach sha1 done m)

module _ {sha1 : Bytes → Bytes} {lexical_cast : Bytes → Option ℕ} {r : PeerRetriever} {threads : ℕ}
    {start : PieceManager} where
  -- The histories of the parts.
  pub Session-Reach :
      {m : PieceManager} {c : Client}
      → Session sha1 lexical_cast r threads start m c
      → Reach sha1 start m
  Session-Reach begun = here
  Session-Reach (main past time http e) = Session-Reach past
  Session-Reach (thread past step same) = Session-Reach past
  Session-Reach (call past step) = next (Session-Reach past) step

  pub Session-History :
      {m : PieceManager} {c : Client}
      → Session sha1 lexical_cast r threads start m c
      → History lexical_cast r threads c
  Session-History begun = History.begun
  Session-History (main {m} past time http e) =
      History.main (Session-History past) (record { manager = m; current_time = time; http = http })
        e
  Session-History (thread past step same) = History.thread (Session-History past) step same
  Session-History (call past step) = Session-History past

-- Everything that the torrent file describes is there: every piece is downloaded once and none is
-- missing or ongoing, each has the hash that the torrent file gives for it, and, unless a piece has more
-- data than it has room for, the output file holds each in its place, or has failed from the start and is
-- as it was then.
abbrev pub IsDownloaded : (Bytes → Bytes) → TorrentFile → PieceManager → PieceManager → Type 0
IsDownloaded sha1 t start m =
    HasAll m
    × (All (IsVerified sha1 (split_piece_hashes t.info.pieces)) m.have_pieces
        × (IsSaved start.downloaded_file.failed start m
            ⊎ (¬ All (IsFitting start.piece_length) m.have_pieces)))
