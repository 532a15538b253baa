-- ===== src/TorrentFile/Print.antt =====
-- src/models/torrentFile.cpp: `toValue`, and the dictionary that `computeInfoHash` hashes. The
-- SHA-1 function of boost is a parameter.
use ufo_torrent.Common.{ℕ, List, [], ◌∷◌, Bytes, Option, none, some, Outcome, ok, undefined, ◌>>=◌}
use ufo_torrent.Common.Int.{ℤ, to_int, to_u64}
use ufo_torrent.Bencode.{
  Value, Values, Entries, int, string, list, dict, nil, cons, leaf, put, encode,
}
use ufo_torrent.TorrentFile.{TorrentFile, Info, TorrentFileInfo}
use ufo_torrent.TorrentFile.Key

-- `static_cast<int>` of a field, undefined where the field was never set.
unfoldable pub int_value : Option ℕ → Outcome Value
int_value none = undefined
int_value (some n) = ok (int (to_int n))

unfoldable pub string_values : List Bytes → Values
string_values [] = nil
string_values (s ∷ ss) = cons (string s) (string_values ss)

-- The dictionary of a file.
unfoldable pub file_value : TorrentFileInfo → Outcome Value
unfolding int_value string_values put
file_value f = do
  n ← int_value f.length
  ok (dict (put Key.path (list (string_values f.path)) (put Key.length n leaf)))

unfoldable pub file_values : List TorrentFileInfo → Outcome Values
unfolding file_value
file_values [] = ok nil
file_values (f ∷ fs) = file_value f >>= λ v. file_values fs >>= λ vs. ok (cons v vs)

unfoldable pub tier_values : List (List Bytes) → Values
unfolding string_values
tier_values [] = nil
tier_values (tier ∷ tiers) = cons (list (string_values tier)) (tier_values tiers)

-- The files of the info dictionary, where there are any.
unfoldable pub put_files : List TorrentFileInfo → Entries → Outcome Entries
unfolding file_values
put_files [] es = ok es
put_files (f ∷ fs) es = file_values (f ∷ fs) >>= λ vs. ok (put Key.files (list vs) es)

-- The info dictionary of `toValue`.
unfoldable pub info_entries : Info → Outcome Entries
unfolding put_files int_value put
info_entries i = do
  with_files ← put_files i.files (put Key.name (string i.name) leaf)
  n ← int_value i.piece_length
  ok (put Key.pieces (string i.pieces) (put Key.piece_length n with_files))

-- `if (o) result[key] = ...`.
unfoldable pub put_some : Bytes → Option Value → Entries → Entries
unfolding put
put_some key none es = es
put_some key (some v) es = put key v es

abbrev pub text_option : Option Bytes → Option Value
text_option none = none
text_option (some s) = some (string s)

abbrev pub date_option : Option ℤ → Option Value
date_option none = none
date_option (some z) = some (int (to_int (to_u64 z)))

-- `toValue`.
unfoldable pub to_value : TorrentFile → Outcome Value
unfolding info_entries tier_values put_some
to_value t = do
  info ← info_entries t.info
  let es =
      put Key.announce_list (list (tier_values t.announce_list)) (put Key.info (dict info) leaf)
  ok (
      dict (
        put Key.announce (string t.announce) (
          put_some Key.creation_date (date_option t.creation_date)
            (put_some Key.created_by (text_option t.created_by) es))))

-- The single length, or the list of files, in `computeInfoHash`.
unfoldable pub put_length_or_files : List TorrentFileInfo → Entries → Outcome Entries
unfolding int_value file_values
put_length_or_files [] es = ok (put Key.files (list nil) es)
put_length_or_files (f ∷ []) es = int_value f.length >>= λ n. ok (put Key.length n es)
put_length_or_files (f ∷ g ∷ fs) es =
    file_values (f ∷ g ∷ fs) >>= λ vs. ok (put Key.files (list vs) es)

-- `computeInfoHash`.
unfoldable pub compute_info_hash : (Bytes → Bytes) → TorrentFile → Outcome Bytes
unfolding put_length_or_files
compute_info_hash sha1 t = do
  n ← int_value t.info.piece_length
  es ← put_length_or_files t.info.files (
      put Key.pieces (string t.info.pieces)
        (put Key.piece_length n (put Key.name (string t.info.name) leaf)))
  bytes ← encode (dict es)
  ok (sha1 bytes)
