-- ===== src/PieceManager/Stored.antt =====
-- The output file after any history of calls.
use ufo_torrent.Common.{Bool, true, false, All, ◌≡◌}
use ufo_torrent.TorrentFile.{TorrentFile}
use ufo_torrent.PieceManager.State.{PieceManager}
use ufo_torrent.PieceManager.OnDisk.{IsOnDisk}

-- What the output file holds, by whether it had failed at the start: nothing new, or each downloaded piece in its place.
abbrev pub IsSaved : Bool → PieceManager → PieceManager → Type 0
IsSaved true start m = m.downloaded_file ≡ start.downloaded_file
IsSaved false start m = All (IsOnDisk start.piece_length m.downloaded_file.content) m.have_pieces
