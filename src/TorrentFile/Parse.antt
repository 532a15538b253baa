-- ===== src/TorrentFile/Parse.antt =====
-- src/models/torrentFile.cpp: `ValueToField`, the visitor that fills in a torrent file, and
-- `parseTorrentFile`. The visitor's current key is an argument.
use ufo_torrent.Common.{
  List, [], ◌∷◌, ◌++◌, Bytes, none, some, beq, if◌then◌else◌, Outcome, ok, throws, invalid_argument,
  bad_get, ◌>>=◌,
}
use ufo_torrent.Common.Int.{ℤ, to_int, to_u64}
use ufo_torrent.Bencode.{
  Value, Values, Entries, int, unsigned, string, list, dict, nil, cons, leaf, entry,
}
use ufo_torrent.TorrentFile.{TorrentFile, TorrentFileInfo}
use ufo_torrent.TorrentFile.Key

-- `operator()` on an `int`.
unfoldable pub visit_int : Bytes → ℤ → TorrentFile → TorrentFile
visit_int key z t =
    if beq key Key.creation_date
    then record t { creation_date = some z }
    else if beq key Key.piece_length
    then record t { info = record t.info { piece_length = some (to_u64 z) } }
    else t

-- `operator()` on a string.
unfoldable pub visit_string : Bytes → Bytes → TorrentFile → TorrentFile
visit_string key s t =
    if beq key Key.announce
    then record t { announce = s }
    else if beq key Key.created_by
    then record t { created_by = some s }
    else if beq key Key.name
    then record t { info = record t.info { name = s } }
    else if beq key Key.pieces
    then record t { info = record t.info { pieces = s } }
    else t

-- `boost::get<string>`.
unfoldable pub get_string : Value → Outcome Bytes
get_string (int z) = throws bad_get
get_string (unsigned n) = throws bad_get
get_string (string s) = ok s
get_string (list vs) = throws bad_get
get_string (dict es) = throws bad_get

-- The inner loop over a group of trackers.
unfoldable pub get_strings : Values → Outcome (List Bytes)
unfolding get_string
get_strings nil = ok []
get_strings (cons v vs) = get_string v >>= λ s. get_strings vs >>= λ ss. ok (s ∷ ss)

-- The loop over the groups; an element that is no vector is passed over.
unfoldable pub announce_groups : Values → Outcome (List (List Bytes))
unfolding get_strings
announce_groups nil = ok []
announce_groups (cons (int z) vs) = announce_groups vs
announce_groups (cons (unsigned n) vs) = announce_groups vs
announce_groups (cons (string s) vs) = announce_groups vs
announce_groups (cons (list g) vs) =
    get_strings g >>= λ ss. announce_groups vs >>= λ gs. ok (ss ∷ gs)
announce_groups (cons (dict es) vs) = announce_groups vs

-- The strings among the parts of a path.
unfoldable pub path_parts : Values → List Bytes
path_parts nil = []
path_parts (cons (int z) vs) = path_parts vs
path_parts (cons (unsigned n) vs) = path_parts vs
path_parts (cons (string s) vs) = s ∷ path_parts vs
path_parts (cons (list g) vs) = path_parts vs
path_parts (cons (dict es) vs) = path_parts vs

-- The length is set where it is an `int`, and an `unsigned long long` is not one.
unfoldable pub set_length : Value → TorrentFileInfo → TorrentFileInfo
set_length (int z) f = record f { length = some (to_u64 z) }
set_length (unsigned n) f = f
set_length (string s) f = f
set_length (list vs) f = f
set_length (dict es) f = f

unfoldable pub add_path : Value → TorrentFileInfo → TorrentFileInfo
unfolding path_parts
add_path (int z) f = f
add_path (unsigned n) f = f
add_path (string s) f = f
add_path (list vs) f = record f { path = f.path ++ path_parts vs }
add_path (dict es) f = f

-- The loop over the dictionary of a file.
unfoldable pub read_file : Entries → TorrentFileInfo → TorrentFileInfo
unfolding set_length add_path
read_file leaf f = f
read_file (entry k v es) f =
    read_file es
      (if beq k Key.length then set_length v f else if beq k Key.path then add_path v f else f)

-- The loop over the files; an element that is no dictionary is passed over.
unfoldable pub read_files : Values → List TorrentFileInfo
unfolding read_file
read_files nil = []
read_files (cons (int z) vs) = read_files vs
read_files (cons (unsigned n) vs) = read_files vs
read_files (cons (string s) vs) = read_files vs
read_files (cons (list g) vs) = read_files vs
read_files (cons (dict es) vs) = read_file es (record { length = none; path = [] }) ∷ read_files vs

-- `operator()` on a vector.
unfoldable pub visit_list : Bytes → Values → TorrentFile → Outcome TorrentFile
unfolding announce_groups read_files
visit_list key vs t =
    if beq key Key.announce_list
    then (announce_groups vs >>= λ gs. ok (record t { announce_list = t.announce_list ++ gs }))
    else if beq key Key.files
    then ok (record t { info = record t.info { files = t.info.files ++ read_files vs } })
    else ok t

-- The visitor on any value, and the loop over a dictionary. An `unsigned long long` is visited as
-- the `int` that it is converted to.
unfoldable mutual
  unfolding visit_int visit_string visit_list

  pub visit : Value → Bytes → TorrentFile → Outcome TorrentFile
  visit (int z) key t = ok (visit_int key z t)
  visit (unsigned n) key t = ok (visit_int key (to_int n) t)
  visit (string s) key t = ok (visit_string key s t)
  visit (list vs) key t = visit_list key vs t
  visit (dict es) key t = let inner = visit_entries es t in if beq key Key.info then inner else ok t

  pub visit_entries : Entries → TorrentFile → Outcome TorrentFile
  visit_entries leaf t = ok t
  visit_entries (entry k v es) t = visit v k t >>= λ t'. visit_entries es t'

-- A torrent file as the default constructor leaves it.
abbrev pub blank : TorrentFile
blank = record {
  announce = [];
  announce_list = [];
  created_by = none;
  creation_date = none;
  info = record { files = []; name = []; piece_length = none; pieces = [] };
}

-- `parseTorrentFile`.
unfoldable pub parse_torrent_file : Value → Outcome TorrentFile
unfolding visit
parse_torrent_file (int z) = throws invalid_argument
parse_torrent_file (unsigned n) = throws invalid_argument
parse_torrent_file (string s) = throws invalid_argument
parse_torrent_file (list vs) = throws invalid_argument
parse_torrent_file (dict es) = visit_entries es blank
