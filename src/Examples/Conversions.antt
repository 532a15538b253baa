-- ===== src/Examples/Conversions.antt =====
-- Bit fields, numbers and text.
use ufo_torrent.Common.{
  ◌/◌, ◌%◌, true, [], ◌∷◌, ◌++◌, ltb, leb, ◌==◌, if◌then◌else◌, ok, throws, invalid_argument,
  out_of_range, length_error, ◌≡◌, refl, arith,
}
use ufo_torrent.Utils.{
  has_piece, set_piece, bytes_to_int, max_int, hex_decode, url_encode, format_time,
}
use ufo_torrent.Common.Int.{pos}
use ufo_torrent.Utils.BitField.{has_piece-set_piece}
use ufo_torrent.Utils.Integers.{bytes_to_int-big_endian, big_endian}
use ufo_torrent.Utils.Text.{
  hex_text, hex_decode-hex_text, IsEncoding, all_classified, url_encode_lem, two_digits,
  format_time_cases,
}

set_five : set_piece (128 ∷ []) 5 ≡ ok (132 ∷ [])
unfolding set_piece
set_five = refl

has_piece-set_piece_example :
    has_piece (132 ∷ []) 0 ≡ (if 5 == 0 then ok true else has_piece (128 ∷ []) 0)
has_piece-set_piece_example =
    has_piece-set_piece (128 ∷ []) (132 ∷ []) 5 0 (omega arith, tt) set_five

bytes_to_int-big_endian_example :
    (bytes_to_int (1 ∷ 2 ∷ []) ≡ (
      if leb (big_endian 0 (1 ∷ 2 ∷ [])) max_int
      then ok (big_endian 0 (1 ∷ 2 ∷ []))
      else throws out_of_range))
    × (bytes_to_int [] ≡ throws invalid_argument)
bytes_to_int-big_endian_example =
    bytes_to_int-big_endian 1 (2 ∷ []) (omega arith, (omega arith, tt))

hex_decode-hex_text_example :
    (hex_decode (hex_text b'a' (200 ∷ 3 ∷ [])) ≡ 200 ∷ 3 ∷ [])
    × (hex_decode (hex_text b'A' (200 ∷ 3 ∷ [])) ≡ 200 ∷ 3 ∷ [])
hex_decode-hex_text_example = hex_decode-hex_text (200 ∷ 3 ∷ []) (omega arith, (omega arith, tt))

url_encode_lem_example :
    IsEncoding
      (all_classified (b'a' ∷ b'/' ∷ []))
      (b'a' ∷ b'/' ∷ [])
      (url_encode (b'a' ∷ b'/' ∷ []))
url_encode_lem_example = url_encode_lem (b'a' ∷ b'/' ∷ []) (omega arith, (omega arith, tt))

format_time_cases_example : format_time (pos 3725) ≡ (
    if ltb 3725 3600
    then ok (two_digits (3725 / 60) ++ (b':' ∷ two_digits (3725 % 60)))
    else if ltb 3725 360000
    then ok (
        two_digits (3725 / 3600)
        ++ (b':' ∷ (two_digits (3725 % 3600 / 60) ++ (b':' ∷ two_digits (3725 % 60)))))
    else throws length_error)
format_time_cases_example = format_time_cases 3725
