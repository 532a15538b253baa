-- ===== src/Examples/Files.antt =====
-- Files that are written, hashed and parsed.
use ufo_torrent.Common.{[], ◌∷◌, none, some, ok, undefined, ◌>>=◌, ◌≡◌, refl, arith}
use ufo_torrent.Common.Int.{pos}
use ufo_torrent.Bencode.{Value}
use ufo_torrent.TorrentFile.{TorrentFile}
use ufo_torrent.TorrentFile.Parse.{blank, parse_torrent_file}
use ufo_torrent.TorrentFile.Print.{to_value}
use ufo_torrent.TorrentFile.RoundTrip.{parse_torrent_file-to_value}
use ufo_torrent.Hashing.{create_hash}
use ufo_torrent.Hashing.Single.{hashes, parts, create_hash-hashes}
use ufo_torrent.Terminal.Preview.{dir_structure, display_all}

-- A torrent file of two files.
abbrev two_files : TorrentFile
two_files = record blank {
  announce = b'u' ∷ [];
  announce_list = ((b'u' ∷ []) ∷ []) ∷ [];
  created_by = some (b'm' ∷ []);
  creation_date = some (pos 7);
  info = record {
    files =
        record { length = some 5; path = (b'a' ∷ []) ∷ (b'b' ∷ []) ∷ [] }
        ∷ record { length = some 0; path = (b'c' ∷ []) ∷ [] }
        ∷ [];
    name = b'n' ∷ [];
    piece_length = some 16384;
    pieces = 1 ∷ 2 ∷ [];
  };
}

parse_torrent_file-to_value_example :
    (v : Value) × (to_value two_files ≡ ok v) × (parse_torrent_file v ≡ ok two_files)
parse_torrent_file-to_value_example = parse_torrent_file-to_value two_files (record {
  date_fits = omega arith;
  piece_length_fits = omega arith;
  lengths_fit = (omega arith, (omega arith, tt));
})

create_hash-hashes_example :
    create_hash (λ bytes. 0 ∷ bytes) 2 ((1 ∷ [], some (5 ∷ 6 ∷ 7 ∷ 8 ∷ [])) ∷ [])
    ≡ ok (hashes (λ bytes. 0 ∷ bytes) (parts 5 2 (5 ∷ 6 ∷ 7 ∷ 8 ∷ [])))
create_hash-hashes_example =
    create_hash-hashes (λ bytes. 0 ∷ bytes) 2 (omega arith) (1 ∷ []) (5 ∷ 6 ∷ 7 ∷ 8 ∷ [])

-- The last of its three hashes is that of nothing.
hashed_parts :
    create_hash (λ bytes. 0 ∷ bytes) 2 ((1 ∷ [], some (5 ∷ 6 ∷ 7 ∷ 8 ∷ [])) ∷ [])
    ≡ ok (0 ∷ 5 ∷ 6 ∷ 0 ∷ 7 ∷ 8 ∷ 0 ∷ [])
unfolding create_hash
hashed_parts = refl

-- A file without a path.
unnamed_file : dir_structure (record { length = some 1; path = [] } ∷ []) [] ≡ undefined
unfolding dir_structure
unnamed_file = refl

-- The lines of the two files.
shown_tree :
    (dir_structure two_files.info.files [] >>= λ tree. ok (display_all 10 0 tree))
    ≡ ok (
        some (
          4,
          record { y = 2; depth = 0; text = []; size = none }
              ∷ record { y = 3; depth = 1; text = b'c' ∷ []; size = some 0 }
              ∷ record { y = 4; depth = 0; text = b'a' ∷ []; size = none }
              ∷ record { y = 5; depth = 1; text = b'b' ∷ []; size = some 5 }
              ∷ [],
        ))
unfolding dir_structure display_all
shown_tree = refl
