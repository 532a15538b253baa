-- ===== src/TorrentFile/Lengths.antt =====
-- The lengths of the files of a torrent that was read from a decoded value.
use ufo_torrent.Common.{
  List, [], All, Bytes, none, beq, ◌≡◌, refl, inl, inr, arith, Bool-cases, All-append, Returns,
  Returns-bind, Returns-any,
}
use ufo_torrent.Common.Int.{ℤ, to_int}
use ufo_torrent.Bencode.{
  Value, Values, Entries, int, unsigned, string, list, dict, nil, cons, leaf, entry,
}
use ufo_torrent.TorrentFile.{TorrentFile, TorrentFileInfo}
use ufo_torrent.TorrentFile.Key
use ufo_torrent.TorrentFile.Parse.{
  visit, visit_entries, visit_int, visit_string, visit_list, announce_groups, read_files, read_file,
  set_length, add_path, parse_torrent_file,
}

-- The value holds no `int`, as every integer that the decoder reads is an `unsigned long long`.
abbrev mutual
  pub NoInt : Value → Type 0
  NoInt (int z) = ⊥
  NoInt (unsigned n) = Unit {0}
  NoInt (string s) = Unit {0}
  NoInt (list vs) = NoInts vs
  NoInt (dict es) = NoIntEntries es

  pub NoInts : Values → Type 0
  NoInts nil = Unit {0}
  NoInts (cons v vs) = NoInt v × NoInts vs

  pub NoIntEntries : Entries → Type 0
  NoIntEntries leaf = Unit {0}
  NoIntEntries (entry k v es) = NoInt v × NoIntEntries es

abbrev pub IsUnset : TorrentFileInfo → Type 0
IsUnset f = f.length ≡ none

-- No file of the torrent has its length set.
abbrev pub AllUnset : TorrentFile → Type 0
AllUnset t = All IsUnset t.info.files

set_length-IsUnset :
    (v : Value) (f : TorrentFileInfo) → NoInt v → IsUnset f → IsUnset (set_length v f)
unfolding set_length
set_length-IsUnset (int z) f h u = absurd h
set_length-IsUnset (unsigned n) f h u = u
set_length-IsUnset (string s) f h u = u
set_length-IsUnset (list vs) f h u = u
set_length-IsUnset (dict es) f h u = u

add_path-IsUnset : (v : Value) (f : TorrentFileInfo) → IsUnset f → IsUnset (add_path v f)
unfolding add_path
add_path-IsUnset (int z) f u = u
add_path-IsUnset (unsigned n) f u = u
add_path-IsUnset (string s) f u = u
add_path-IsUnset (list vs) f u = u
add_path-IsUnset (dict es) f u = u

read_file-IsUnset :
    (es : Entries) (f : TorrentFileInfo) → NoIntEntries es → IsUnset f → IsUnset (read_file es f)
unfolding read_file
read_file-IsUnset leaf f h u = u
read_file-IsUnset (entry k v es) f h u = elim (Bool-cases (beq k Key.length)) [
  | inl length_key ↦
      rw (length_key, read_file)
        (read_file-IsUnset es (set_length v f) h.1 (set_length-IsUnset v f h.0 u))
  | inr other ↦ elim (Bool-cases (beq k Key.path)) [
    | inl path_key ↦
        rw (other, read_file, path_key)
          (read_file-IsUnset es (add_path v f) h.1 (add_path-IsUnset v f u))
    | inr neither ↦ rw (other, read_file, neither) (read_file-IsUnset es f h.1 u)
  ]
]

read_files-IsUnset : (vs : Values) → NoInts vs → All IsUnset (read_files vs)
unfolding read_files
read_files-IsUnset nil h = tt
read_files-IsUnset (cons (int z) vs) h = read_files-IsUnset vs h.1
read_files-IsUnset (cons (unsigned n) vs) h = read_files-IsUnset vs h.1
read_files-IsUnset (cons (string s) vs) h = read_files-IsUnset vs h.1
read_files-IsUnset (cons (list g) vs) h = read_files-IsUnset vs h.1
read_files-IsUnset (cons (dict es) vs) h =
    (read_file-IsUnset es (record { length = none; path = [] }) h.0 refl, read_files-IsUnset vs h.1)

visit_int-AllUnset :
    (key : Bytes) (z : ℤ) (t : TorrentFile) → AllUnset t → AllUnset (visit_int key z t)
unfolding visit_int
visit_int-AllUnset key z t h = ground arith

visit_string-AllUnset :
    (key s : Bytes) (t : TorrentFile) → AllUnset t → AllUnset (visit_string key s t)
unfolding visit_string
visit_string-AllUnset key s t h = ground arith

visit_list-AllUnset :
    (key : Bytes) (vs : Values) (t : TorrentFile)
    → NoInts vs
    → AllUnset t
    → Returns AllUnset (visit_list key vs t)
unfolding visit_list
visit_list-AllUnset key vs t h u = elim (Bool-cases (beq key Key.announce_list)) [
  | inl groups ↦
      rw (groups, visit_list)
        (Returns-bind (λ (g : List (List Bytes)). Unit {0}) AllUnset (announce_groups vs) _
          (Returns-any (announce_groups vs)) (λ g _. u))
  | inr other ↦ elim (Bool-cases (beq key Key.files)) [
    | inl files ↦
        rw (other, visit_list, files)
          (All-append IsUnset t.info.files (read_files vs) u (read_files-IsUnset vs h))
    | inr neither ↦ rw (other, visit_list, neither) u
  ]
]

mutual
  unfolding visit

  visit-AllUnset :
      (v : Value) (key : Bytes) (t : TorrentFile)
      → NoInt v
      → AllUnset t
      → Returns AllUnset (visit v key t)
  visit-AllUnset (int z) key t h u = absurd h
  visit-AllUnset (unsigned n) key t h u = visit_int-AllUnset key (to_int n) t u
  visit-AllUnset (string s) key t h u = visit_string-AllUnset key s t u
  visit-AllUnset (list vs) key t h u = visit_list-AllUnset key vs t h u
  visit-AllUnset (dict es) key t h u =
      let inner = visit_entries-AllUnset es t h u in
      elim (Bool-cases (beq key Key.info)) [
        | inl info_key ↦ rw (info_key) inner
        | inr other ↦ rw (other) u
      ]

  visit_entries-AllUnset :
      (es : Entries) (t : TorrentFile)
      → NoIntEntries es
      → AllUnset t
      → Returns AllUnset (visit_entries es t)
  visit_entries-AllUnset leaf t h u = u
  visit_entries-AllUnset (entry k v es) t h u =
      Returns-bind AllUnset AllUnset (visit v k t) (λ t'. visit_entries es t')
        (visit-AllUnset v k t h.0 u) (λ t' u'. visit_entries-AllUnset es t' h.1 u')

pub parse_torrent_file-AllUnset : (v : Value) → NoInt v → Returns AllUnset (parse_torrent_file v)
unfolding parse_torrent_file
parse_torrent_file-AllUnset (int z) h = tt
parse_torrent_file-AllUnset (unsigned n) h = tt
parse_torrent_file-AllUnset (string s) h = tt
parse_torrent_file-AllUnset (list vs) h = tt
parse_torrent_file-AllUnset (dict es) h = visit_entries-AllUnset es _ h tt
