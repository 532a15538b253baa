-- ===== src/TorrentFile/Created.antt =====
-- What a torrent file that the program has created agrees on.
use ufo_torrent.Common.{
  ℕ, ◌+◌, ◌%◌, ◌^◌, Bool, false, not, List, [], ◌∷◌, ◌++◌, Bytes, Option, some, is_empty, ok, ◌>>=◌,
  ◌≡◌, refl, inl, inr, Bool-cases, Option-cases, Returns, Returns-bind, Returns-after, Returns-if,
}
use ufo_torrent.Common.Int.{ℤ}
use ufo_torrent.Files.{Disk}
use ufo_torrent.Files.Path.{filename}
use ufo_torrent.Files.System.{FileSystem, Attempt, asked}
use ufo_torrent.Hashing.{choose_piece_length, create_hash}
use ufo_torrent.PieceManager.Setup.{sum_lengths, get_total_file_size}
use ufo_torrent.TorrentFile.{TorrentFile, TorrentFileInfo}
use ufo_torrent.TorrentFile.Create.{
  Found, nothing_found, add_file, gather, gather_file, gather_folder, find_files, opened,
  create_torrent_file,
}

sum_lengths-append :
    (total : ℕ) (fs : List TorrentFileInfo) (size : ℕ) (parts : List Bytes)
    → sum_lengths total (fs ++ (record { length = some size; path = parts } ∷ []))
      ≡ (sum_lengths total fs >>= λ n. ok ((n + size) % 2 ^ 64))
unfolding sum_lengths
sum_lengths-append total [] size parts = refl
sum_lengths-append total (f ∷ fs) size parts = elim (Option-cases f.length) [
  | inl unset ↦ rw (unset, sum_lengths) refl
  | inr (n, is_set) ↦
      rw (is_set, sum_lengths) (sum_lengths-append ((total + n) % 2 ^ 64) fs size parts)
]

-- The size kept beside the files is the sum of their lengths.
abbrev IsSummed : Found → Type 0
IsSummed f = sum_lengths 0 f.info_files ≡ ok f.files_size

IsSummed-add_file :
    (path : Bytes) (size : ℕ) (parts : List Bytes) (f : Found)
    → IsSummed f
    → IsSummed (add_file path size parts f)
unfolding add_file
IsSummed-add_file path size parts f h = rw (sum_lengths-append 0 f.info_files size parts, h) refl

module _ (fs : FileSystem) where
  gather-IsSummed :
      (folder : Bytes) (entries : List (Bytes × Attempt Bool)) (f : Found)
      → IsSummed f
      → Returns IsSummed (gather fs folder entries f)
  unfolding gather
  gather-IsSummed folder [] f h = h
  gather-IsSummed folder ((path, regular) ∷ entries) f h =
      Returns-after IsSummed (asked regular) _ λ is_regular.
        Returns-if IsSummed is_regular _ _
          (Returns-after IsSummed (asked (fs.file_size path)) _ λ size.
            Returns-after IsSummed (asked (fs.relative path folder)) _ λ parts.
              gather-IsSummed folder entries (add_file path size parts f)
                (IsSummed-add_file path size parts f h))
          (gather-IsSummed folder entries f h)

  -- The search gives one file at least, and the sum of the lengths.
  abbrev IsFound : Found → Type 0
  IsFound f = IsSummed f × (is_empty f.info_files ≡ false)

  gather_file-IsFound : (path : Bytes) → Returns IsFound (gather_file fs path)
  unfolding gather_file sum_lengths
  gather_file-IsFound path =
      Returns-after IsFound (asked (fs.file_size path)) _
        λ size. (IsSummed-add_file path size (filename path ∷ []) nothing_found refl, refl)

  gather_folder-IsFound : (folder : Bytes) → Returns IsFound (gather_folder fs folder)
  unfolding gather_folder sum_lengths
  gather_folder-IsFound folder = Returns-after IsFound (asked (fs.walk folder)) _ λ entries.
      Returns-bind IsSummed IsFound (gather fs folder entries nothing_found) _
        (gather-IsSummed folder entries nothing_found refl)
        λ f h. elim (Bool-cases (is_empty f.info_files)) [
          | inl none_there ↦ rw none_there tt
          | inr some_there ↦ rw some_there (h, some_there)
        ]

  find_files-IsFound : (path : Bytes) → Returns IsFound (find_files fs path)
  unfolding find_files
  find_files-IsFound path = Returns-after IsFound (asked (fs.exists path)) _ λ there.
      Returns-if IsFound (not there) _ _ tt (
        Returns-after IsFound (asked (fs.is_regular_file path)) _ λ regular.
          Returns-if IsFound regular _ _ (gather_file-IsFound path) (
            Returns-after IsFound (asked (fs.is_directory path)) _
              λ directory. Returns-if IsFound directory _ _ (gather_folder-IsFound path) tt))

-- The files are there, and the piece length is the one for the total size that the piece manager computes.
pub record IsCreated (t : TorrentFile) : Type 0 where
  pub total : ℕ
  pub summed : get_total_file_size t ≡ ok total
  pub chosen : t.info.piece_length ≡ some (choose_piece_length total)
  pub some_file : is_empty t.info.files ≡ false

-- A torrent file that `createTorrentFile` returns has a file at least, every length of it is set, and its piece length is the one that is chosen for the total size, as the piece manager computes that size from the files.
pub create_torrent_file-IsCreated :
    (fs : FileSystem) (sha1 : Bytes → Bytes) (disk : Disk) (announce : Bytes)
    (tiers : List (List Bytes)) (name path : Bytes) (by : Option Bytes) (date : Option ℤ)
    → Returns IsCreated (create_torrent_file fs sha1 disk announce tiers name path by date)
unfolding create_torrent_file get_total_file_size
create_torrent_file-IsCreated fs sha1 disk announce tiers name path by date =
    Returns-bind (IsFound fs) IsCreated (find_files fs path) _ (find_files-IsFound fs path) λ f h.
      Returns-after IsCreated
        (create_hash sha1 (choose_piece_length f.files_size) (opened fs disk f.full_paths)) _
        λ pieces. record { total = f.files_size; summed = h.0; chosen = refl; some_file = h.1 }
