-- ===== src/Examples/Sessions.antt =====
-- A session of the client in which the only piece of a torrent comes, in a call of `blockReceived` in
-- two parts, and the loop ends.
use ufo_torrent.Common.{ℕ, true, [], Bytes, Option, none}
use ufo_torrent.Common.Int.{pos}
use ufo_torrent.PieceManager.State.{PieceManager}
use ufo_torrent.Tracker.Request.{Http, broken_off, PeerRetriever}
use ufo_torrent.Client.Loop.{over, Client, new_client}
use ufo_torrent.Client.Session.{Session}

abbrev no_number : Bytes → Option ℕ
no_number s = none

abbrev retriever : PeerRetriever
retriever = record {
  announce_url = [];
  info_hash = [];
  peer_id = [];
  port = pos 8080;
  file_size = 5;
}

-- The tracker is not asked any more.
abbrev http : Http
http = record { has_handle = true; perform = λ url. broken_off [] }

abbrev ended : Client
ended = record (new_client 5) { place = over }
