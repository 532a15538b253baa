-- ===== src/Terminal/Written.antt =====
-- The torrent file that "Create example Torrent" writes.
use ufo_torrent.Common.{Bool, List, [], ◌∷◌, Bytes, none, beq, if◌then◌else◌, Outcome, ok, ◌≡◌, ◌⊎◌}
use ufo_torrent.TorrentFile.{TorrentFile}
use ufo_torrent.TorrentFile.Create.{create_torrent_file}
use ufo_torrent.TorrentFile.Created.{IsCreated}
use ufo_torrent.TorrentFile.Parse.{parse_torrent_file}
use ufo_torrent.TorrentFile.Print.{to_value}
use ufo_torrent.TorrentFile.RoundTrip.{IsPrintable}
use ufo_torrent.Bencode.{Value, encode}
use ufo_torrent.Files.{Disk, read}
use ufo_torrent.Files.System.{FileSystem}
use ufo_torrent.Terminal.Dialog.{Key, Dialog, returns}
use ufo_torrent.Terminal.Menu.{
  Menu, Stage, at, in_dialog, left_loop, dir_path, out_file, exemple, tester,
}

-- The text of the torrent file.
abbrev pub IsTextOf : TorrentFile → Bytes → Type 0
IsTextOf t content =
    (v : Value) × (to_value t ≡ ok v)
    × (encode v ≡ ok content)
    × (IsPrintable t → parse_torrent_file v ≡ ok t)

module _ (fs : FileSystem) (sha1 : Bytes → Bytes) (current_path : Bytes) (accepts : Bytes → Bool)
    (takes : Bytes → Bytes → Outcome (Unit {0})) (opens writes : Bytes → Bool) where
  -- One file has been written, at the place that belongs to the path that the second dialog returned, and
  -- it is the text of the torrent file; all others read as before.
  abbrev pub IsWritten : List Key → TorrentFile → Disk → Disk → Type 0
  IsWritten second t before after =
      (chosen : Bytes) × (out : Bytes) × (content : Bytes) × (dir_path fs sha1 current_path accepts
          takes opens writes second
        ≡ returns chosen)
      × (out_file fs sha1 current_path accepts takes opens writes chosen ≡ ok out)
      × IsTextOf t content
      × ((other : Bytes)
          → read after other ≡ (if beq out other then ok content else read before other))

  -- The torrent file that is created of what stands at a path.
  abbrev pub created_at : Menu → Bytes → Outcome TorrentFile
  created_at m path =
      create_torrent_file fs sha1 m.disk exemple ((exemple ∷ []) ∷ []) tester path none none

  -- Nothing has changed, or the torrent file that is created of the path has been written.
  abbrev pub IsExample : Menu → List Key → Bytes → Stage → Type 0
  IsExample m second path (at m') =
      (m'.disk ≡ m.disk)
      ⊎ ((t : TorrentFile) × (created_at m path ≡ ok t)
          × IsCreated t
          × IsWritten second t m.disk m'.disk)
  IsExample m second path (in_dialog d) = Unit
  IsExample m second path (left_loop m') = ⊥
