-- ===== src/TorrentFile.antt =====
-- includes/torrentFile.h: the contents of a torrent file.
pub mod Key
pub mod Parse
pub mod Print
pub mod Create
pub mod Created
pub mod Lengths
pub mod Lost
pub mod RoundTrip
use ufo_torrent.Common.{ℕ, List, Bytes, Option}
use ufo_torrent.Common.Int.{ℤ}

-- `TorrentFileInfo`. A default constructed one has an uninitialised length, here `none`.
pub record TorrentFileInfo : Type 0 where
  pub length : Option ℕ
  pub path : List Bytes

-- `TorrentFile::Info`. The piece length is uninitialised too until it is set.
pub record Info : Type 0 where
  pub files : List TorrentFileInfo
  pub name : Bytes
  pub piece_length : Option ℕ
  pub pieces : Bytes

pub record TorrentFile : Type 0 where
  pub announce : Bytes
  pub announce_list : List (List Bytes)
  pub created_by : Option Bytes
  pub creation_date : Option ℤ
  pub info : Info
