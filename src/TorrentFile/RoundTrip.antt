-- ===== src/TorrentFile/RoundTrip.antt =====
-- What `toValue` writes, `parseTorrentFile` reads back.
use ufo_torrent.Common.{
  ℕ, ◌^◌, ◌<◌, List, [], ◌∷◌, All, Bytes, Option, none, some, ok, ◌≡◌, refl, sym, ap, ◌∙◌, arith,
}
use ufo_torrent.Common.Int.{ℤ, pos, negsuc, to_int, to_u64}
use ufo_torrent.Bencode.{
  Value, Values, Entries, int, string, list, dict, nil, cons, leaf, entry, put, less,
}
use ufo_torrent.TorrentFile.{TorrentFile, Info, TorrentFileInfo}
use ufo_torrent.TorrentFile.Key
use ufo_torrent.TorrentFile.Parse.{
  visit_entries, visit_int, visit_string, visit_list, get_strings, announce_groups, path_parts,
  read_files, read_file, set_length, add_path, parse_torrent_file, blank,
}
use ufo_torrent.TorrentFile.Print.{
  int_value, string_values, file_value, file_values, tier_values, put_files, info_entries, put_some,
  text_option, date_option, to_value,
}

-- The number is one of an `int` that is not negative.
abbrev pub IsSize : Option ℕ → Type 0
IsSize none = ⊥
IsSize (some n) = n < 2 ^ 31

abbrev pub IsDate : Option ℤ → Type 0
IsDate none = Unit {0}
IsDate (some (pos n)) = n < 2 ^ 31
IsDate (some (negsuc n)) = n < 2 ^ 31

-- Every field that `toValue` narrows fits in an `int`, and every length is set.
pub record IsPrintable (t : TorrentFile) : Type 0 where
  pub date_fits : IsDate t.creation_date
  pub piece_length_fits : IsSize t.info.piece_length
  pub lengths_fit : All (λ (f : TorrentFileInfo). IsSize f.length) t.info.files

to_u64-to_int : (n : ℕ) → n < 2 ^ 31 → to_u64 (to_int n) ≡ n
to_u64-to_int n h = ground arith

to_int-to_u64_pos : (n : ℕ) → n < 2 ^ 31 → to_int (to_u64 (pos n)) ≡ pos n
to_int-to_u64_pos n h = ground arith

to_int-to_u64_negsuc : (n : ℕ) → n < 2 ^ 31 → to_int (to_u64 (negsuc n)) ≡ negsuc n
to_int-to_u64_negsuc n h = ground arith

get_strings-string_values : (ss : List Bytes) → get_strings (string_values ss) ≡ ok ss
unfolding get_strings string_values
get_strings-string_values [] = refl
get_strings-string_values (s ∷ ss) = rw (get_strings-string_values ss) refl

path_parts-string_values : (ss : List Bytes) → path_parts (string_values ss) ≡ ss
unfolding path_parts string_values
path_parts-string_values [] = refl
path_parts-string_values (s ∷ ss) = ap (◌∷◌ s) (path_parts-string_values ss)

announce_groups-tier_values :
    (tiers : List (List Bytes)) → announce_groups (tier_values tiers) ≡ ok tiers
unfolding announce_groups tier_values
announce_groups-tier_values [] = refl
announce_groups-tier_values (tier ∷ tiers) =
    rw (get_strings-string_values tier, announce_groups-tier_values tiers) refl

abbrev file_info : Option ℕ → List Bytes → TorrentFileInfo
file_info n path = record { length = n; path = path }

read_file-file_value :
    (n : Option ℕ) (path : List Bytes)
    → IsSize n
    → (es : Entries) × (file_value (file_info n path) ≡ ok (dict es))
      × (read_file es (file_info none []) ≡ file_info n path)
unfolding file_value read_file set_length add_path put less int_value
read_file-file_value none path h = absurd h
read_file-file_value (some n) path h =
    (_, refl, rw (to_u64-to_int n h, path_parts-string_values path) refl)

read_files-file_values :
    (fs : List TorrentFileInfo)
    → All (λ (f : TorrentFileInfo). IsSize f.length) fs
    → (vs : Values) × (file_values fs ≡ ok vs) × (read_files vs ≡ fs)
unfolding file_values read_files
read_files-file_values [] h = (nil, refl, refl)
read_files-file_values (f ∷ fs) h =
    let (es, wrote, reads) = read_file-file_value f.length f.path h.0 in
    let (vs, wrote_all, reads_all) = read_files-file_values fs h.1 in
    (cons (dict es) vs, rw (wrote, wrote_all) refl, rw (reads, reads_all) refl)

-- The entries that follow the announce list in the order of the keys.
visit_info :
    (name pieces : Bytes) (n : ℕ) (fs : List TorrentFileInfo) (t : TorrentFile)
    → n < 2 ^ 31
    → All (λ (f : TorrentFileInfo). IsSize f.length) fs
    → t.info ≡ blank.info
    → (es : Entries) × (info_entries
          (record { files = fs; name = name; piece_length = some n; pieces = pieces })
        ≡ ok es)
      × (visit_entries es t
          ≡ ok (record t {
            info = record { files = fs; name = name; piece_length = some n; pieces = pieces };
          }))
unfolding info_entries put_files int_value put less visit_entries visit_int visit_string visit_list
visit_info name pieces n [] t small h e =
    let none_yet = ap (λ (i : Info). i.files) e in
    (_, refl, rw (none_yet, to_u64-to_int n small) refl)
visit_info name pieces n (f ∷ fs) t small h e =
    let (vs, wrote, reads) = read_files-file_values (f ∷ fs) h in
    let none_yet = ap (λ (i : Info). i.files) e in
    let after : Entries =
      entry Key.name (string name)
        (entry Key.piece_length (int (to_int n)) (entry Key.pieces (string pieces) leaf)) in
    (
      entry Key.files (list vs) after,
      rw wrote refl,
      rw (none_yet, to_u64-to_int n small, reads) refl,
    )

abbrev fields : Bytes → List (List Bytes) → Option Bytes → Option ℤ → Info → TorrentFile
fields announce tiers by date info = record {
  announce = announce;
  announce_list = tiers;
  created_by = by;
  creation_date = date;
  info = info;
}

abbrev full_info : List TorrentFileInfo → Bytes → ℕ → Bytes → Info
full_info fs name n pieces = record {
  files = fs;
  name = name;
  piece_length = some n;
  pieces = pieces;
}

to_int-to_u64 : (z : ℤ) → IsDate (some z) → to_int (to_u64 z) ≡ z
to_int-to_u64 (pos n) h = to_int-to_u64_pos n h
to_int-to_u64 (negsuc n) h = to_int-to_u64_negsuc n h

-- The dictionary in the order of its keys, around an info dictionary.
abbrev with_some : Bytes → Option Value → Entries → Entries
with_some key none es = es
with_some key (some v) es = entry key v es

abbrev whole : Bytes → List (List Bytes) → Option Bytes → Option ℤ → Entries → Entries
whole announce tiers by date info = entry Key.announce (string announce) (
    entry Key.announce_list (list (tier_values tiers)) (
      with_some Key.created_by (text_option by)
        (with_some Key.creation_date (date_option date) (entry Key.info (dict info) leaf))))

module _ (announce : Bytes) (tiers : List (List Bytes)) where
  to_value-whole :
      (by : Option Bytes) (date : Option ℤ) (i : Info) (es : Entries)
      → info_entries i ≡ ok es
      → to_value (fields announce tiers by date i) ≡ ok (dict (whole announce tiers by date es))
  unfolding to_value put_some put less
  to_value-whole none none i es e = rw e refl
  to_value-whole none (some z) i es e = rw e refl
  to_value-whole (some s) none i es e = rw e refl
  to_value-whole (some s) (some z) i es e = rw e refl

  visit-whole :
      (by : Option Bytes) (date : Option ℤ) (i : Info) (es : Entries)
      → IsDate date
      → visit_entries es (fields announce tiers by date blank.info)
        ≡ ok (fields announce tiers by date i)
      → visit_entries (whole announce tiers by date es) blank ≡ ok (fields announce tiers by date i)
  unfolding visit_entries visit_int visit_string visit_list
  visit-whole none none i es d e = rw (announce_groups-tier_values tiers, e) refl
  visit-whole none (some z) i es d e =
      rw (announce_groups-tier_values tiers, to_int-to_u64 z d, e) refl
  visit-whole (some s) none i es d e = rw (announce_groups-tier_values tiers, e) refl
  visit-whole (some s) (some z) i es d e =
      rw (announce_groups-tier_values tiers, to_int-to_u64 z d, e) refl

size_of : (o : Option ℕ) → IsSize o → (n : ℕ) × (o ≡ some n) × (n < 2 ^ 31)
size_of none h = absurd h
size_of (some n) h = (n, refl, h)

-- `toValue` of a torrent file whose lengths are set and whose numbers fit in an `int` ends normally, and `parseTorrentFile` of the value gives the torrent file back.
pub parse_torrent_file-to_value :
    (t : TorrentFile)
    → IsPrintable t
    → (v : Value) × (to_value t ≡ ok v) × (parse_torrent_file v ≡ ok t)
unfolding parse_torrent_file
parse_torrent_file-to_value t h =
    let (n, is_set, small) = size_of t.info.piece_length h.piece_length_fits in
    let (es, wrote, reads) =
      visit_info t.info.name t.info.pieces n t.info.files
        (fields t.announce t.announce_list t.created_by t.creation_date blank.info) small
        h.lengths_fit refl in
    let same : full_info t.info.files t.info.name n t.info.pieces ≡ t.info =
      ap (λ (o : Option ℕ). record t.info { piece_length = o }) (sym is_set) in
    (
      dict (whole t.announce t.announce_list t.created_by t.creation_date es),
      to_value-whole t.announce t.announce_list t.created_by t.creation_date t.info es
          (ap info_entries (sym same) ∙ wrote),
      visit-whole t.announce t.announce_list t.created_by t.creation_date t.info es h.date_fits (
          reads
          ∙ ap (λ (i : Info). ok (fields t.announce t.announce_list t.created_by t.creation_date i))
              same),
    )
