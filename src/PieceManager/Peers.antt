-- ===== src/PieceManager/Peers.antt =====
-- `addPeer`, `updatePeer` and `removePeer`.
use ufo_torrent.Common.{
  ℕ, Bytes, none, some, if◌then◌else◌, Outcome, ok, throws, runtime_error, ◌>>=◌,
}
use ufo_torrent.Utils.{set_piece}
use ufo_torrent.PieceManager.State.{PieceManager, lookup, insert, erase, is_complete}

unfoldable pub add_peer : Bytes → Bytes → PieceManager → PieceManager
add_peer peer_id bit_field m = record m { peers = insert peer_id bit_field m.peers }

unfoldable pub update_peer : Bytes → ℕ → PieceManager → Outcome PieceManager
update_peer peer_id index m = elim (lookup peer_id m.peers) [
  | none ↦ throws runtime_error
  | some bits ↦ do
    bits' ← set_piece bits index
    ok (record m { peers = insert peer_id bits' m.peers })
]

unfoldable pub remove_peer : Bytes → PieceManager → Outcome PieceManager
remove_peer peer_id m = if is_complete m then ok m else elim (lookup peer_id m.peers) [
  | none ↦ throws runtime_error
  | some bits ↦ ok (record m { peers = erase peer_id m.peers })
]
