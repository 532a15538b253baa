-- ===== src/PieceManager.antt =====
-- src/network_part/PieceManager.cpp with includes/network_part/PieceManager.h. The state and the
-- operations stand in the first six modules; the others prove what they promise.
pub mod State
pub mod Setup
pub mod Peers
pub mod Requests
pub mod Receive
pub mod Progress
pub mod Steps
pub mod Choice
pub mod Tiling
pub mod Kept
pub mod Partition
pub mod Labels
pub mod Verified
pub mod Rarest
pub mod Requesting
pub mod Endgame
pub mod Failed
pub mod Files
pub mod Untouched
pub mod OnDisk
pub mod Stored
pub mod Bar
pub mod Complete
pub mod Parts
