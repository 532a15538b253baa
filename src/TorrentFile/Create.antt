-- ===== src/TorrentFile/Create.antt =====
-- src/models/torrentFile.cpp: `createTorrentFile`, over an interface of the file system.
use ufo_torrent.Common.{
  ℕ, ◌+◌, ◌%◌, ◌^◌, Bool, not, List, [], ◌∷◌, ◌++◌, Bytes, Option, some, if◌then◌else◌, is_empty,
  Outcome, ok, throws, runtime_error, ◌>>=◌,
}
use ufo_torrent.Common.Int.{ℤ}
use ufo_torrent.Files.{Disk}
use ufo_torrent.Files.Path.{filename}
use ufo_torrent.Files.System.{FileSystem, Attempt, asked}
use ufo_torrent.Hashing.{choose_piece_length, create_hash}
use ufo_torrent.PieceManager.State.{lookup}
use ufo_torrent.TorrentFile.{TorrentFile, TorrentFileInfo}

-- The files that were found: their descriptions, their paths and their size together.
pub record Found : Type 0 where
  pub info_files : List TorrentFileInfo
  pub full_paths : List Bytes
  pub files_size : ℕ

abbrev pub nothing_found : Found
nothing_found = record { info_files = []; full_paths = []; files_size = 0 }

-- One file more.
unfoldable pub add_file : Bytes → ℕ → List Bytes → Found → Found
add_file path size parts f = record {
  info_files = f.info_files ++ (record { length = some size; path = parts } ∷ []);
  full_paths = f.full_paths ++ (path ∷ []);
  files_size = (f.files_size + size) % 2 ^ 64;
}

module _ (fs : FileSystem) where
  -- The loop over a directory; an entry that is no regular file is passed over.
  unfoldable pub gather : Bytes → List (Bytes × Attempt Bool) → Found → Outcome Found
  unfolding add_file
  gather folder [] f = ok f
  gather folder ((path, regular) ∷ entries) f = asked regular >>= λ is_regular.
      if is_regular
      then (asked (fs.file_size path) >>= λ size. asked (fs.relative path folder) >>= λ parts.
          gather folder entries (add_file path size parts f))
      else gather folder entries f

  -- The branch for a single file.
  unfoldable pub gather_file : Bytes → Outcome Found
  unfolding add_file filename
  gather_file path = asked (fs.file_size path) >>= λ size.
      ok (add_file path size (filename path ∷ []) nothing_found)

  -- The branch for a directory.
  unfoldable pub gather_folder : Bytes → Outcome Found
  unfolding gather
  gather_folder folder = asked (fs.walk folder) >>= λ entries.
      gather folder entries nothing_found >>= λ f.
      if is_empty f.info_files then throws runtime_error else ok f

  -- The three cases of the path.
  unfoldable pub find_files : Bytes → Outcome Found
  unfolding gather_file gather_folder
  find_files path = asked (fs.exists path) >>= λ there.
      if not there
      then throws runtime_error
      else (asked (fs.is_regular_file path) >>= λ regular.
          if regular
          then gather_file path
          else (asked (fs.is_directory path) >>= λ directory.
              if directory then gather_folder path else throws runtime_error))

  -- The paths with what opens of them.
  unfoldable pub opened : Disk → List Bytes → List (Bytes × Option Bytes)
  unfolding lookup
  opened disk [] = []
  opened disk (path ∷ paths) = (path, lookup path disk) ∷ opened disk paths

  -- `createTorrentFile`.
  unfoldable pub create_torrent_file :
      (Bytes → Bytes)
      → Disk
      → Bytes
      → List (List Bytes)
      → Bytes
      → Bytes
      → Option Bytes
      → Option ℤ
      → Outcome TorrentFile
  unfolding find_files opened
  create_torrent_file sha1 disk announce tiers name path by date = do
    f ← find_files path
    pieces ← create_hash sha1 (choose_piece_length f.files_size) (opened disk f.full_paths)
    ok (record {
      announce = announce;
      announce_list = tiers;
      created_by = by;
      creation_date = date;
      info = record {
        files = f.info_files;
        name = name;
        piece_length = some (choose_piece_length f.files_size);
        pieces = pieces;
      };
    })
