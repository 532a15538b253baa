-- ===== src/Examples/Values.antt =====
-- Bencoded values, and a torrent that is read from one.
use ufo_torrent.Common.{ℕ, true, [], ◌∷◌, Bytes, Option, some, replicate, ok, ◌≡◌, refl, ap, arith}
use ufo_torrent.Common.Decimal.{decimal_value, decimal_value-to_string, to_string}
use ufo_torrent.Common.Int.{pos}
use ufo_torrent.Bencode.{
  Value, int, unsigned, string, list, dict, nil, cons, leaf, entry, encode, less,
}
use ufo_torrent.Bencode.Decode.{decode, returned}
use ufo_torrent.Bencode.Text.{decoded}
use ufo_torrent.Bencode.RoundTrip.{decode-encode, ReadsNumbers}
use ufo_torrent.Bencode.Total.{decode-Ends, Ends}
use ufo_torrent.TorrentFile.{TorrentFile}
use ufo_torrent.TorrentFile.Key
use ufo_torrent.TorrentFile.Parse.{parse_torrent_file, blank}
use ufo_torrent.TorrentFile.Lengths.{NoInt}
use ufo_torrent.TorrentFile.Lost.{IsFailed, parse_torrent_file-failed}
use ufo_torrent.PieceManager.State.{PieceManager}
use ufo_torrent.PieceManager.Setup.{new_manager}

-- A conversion that reads the digits.
abbrev read_digits : Bytes → Option ℕ
read_digits s = some (decimal_value 0 s)

read_digits-ReadsNumbers : ReadsNumbers read_digits
read_digits-ReadsNumbers n h = ap some (decimal_value-to_string n)

-- A dictionary of two entries.
abbrev sample : Value
sample = dict (
    entry (b'a' ∷ []) (int (pos 7)) (entry (b'b' ∷ []) (list (cons (string (b'x' ∷ [])) nil)) leaf))

decode-encode_example :
    (bytes : Bytes) × (encode sample ≡ ok bytes)
    × (decode read_digits bytes ≡ returned (decoded sample))
unfolding less to_string
decode-encode_example = decode-encode read_digits read_digits-ReadsNumbers sample (
  (omega arith, omega arith),
  omega arith,
  (refl, tt),
  ((omega arith, omega arith), ((omega arith, omega arith), tt), tt, tt),
)

-- "li5ei6ee", a list of two integers.
decode_two :
    decode read_digits (b'l' ∷ b'i' ∷ b'5' ∷ b'e' ∷ b'i' ∷ b'6' ∷ b'e' ∷ b'e' ∷ [])
    ≡ returned (list (cons (unsigned 5) (cons (unsigned 6) nil)))
unfolding decode decimal_value
decode_two = refl

decode-Ends_example : Ends NoInt (decode read_digits (b'i' ∷ b'5' ∷ b'e' ∷ []))
decode-Ends_example = decode-Ends read_digits (b'i' ∷ b'5' ∷ b'e' ∷ [])

-- A torrent of a single file of five bytes, as the decoder gives it.
abbrev decoded_torrent : Value
decoded_torrent = dict (
    entry Key.info
      (dict (
        entry Key.length (unsigned 5)
          (entry Key.piece_length (unsigned 20) (entry Key.pieces (string (replicate 20 7)) leaf))))
      leaf)

abbrev read_torrent : TorrentFile
read_torrent = record blank {
  info = record blank.info { piece_length = some 20; pieces = replicate 20 7 };
}

reads_torrent : parse_torrent_file decoded_torrent ≡ ok read_torrent
unfolding parse_torrent_file
reads_torrent = refl

parse_torrent_file-failed_example :
    (m : PieceManager) × (new_manager true read_torrent 5 0 ≡ ok m) × IsFailed m
parse_torrent_file-failed_example =
    parse_torrent_file-failed decoded_torrent true read_torrent 5 0 ((tt, (tt, (tt, tt))), tt)
      reads_torrent
