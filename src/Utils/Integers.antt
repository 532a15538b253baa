-- ===== src/Utils/Integers.antt =====
-- `bytesToInt`, which goes through a string of binary digits, against big-endian reading.
use ufo_torrent.Common.{
  ℕ, ◌+◌, ◌*◌, ◌/◌, ◌%◌, ◌<◌, [], ◌∷◌, ◌++◌, Bytes, IsByte, All, leb, if◌then◌else◌, ok, throws,
  out_of_range, invalid_argument, ◌≡◌, refl, arith, ◌∙◌,
}
use ufo_torrent.Utils.{bitset8, bin_str, binary_value, bytes_to_int, max_int}

-- The value of a big-endian byte string, read on from `acc`.
abbrev pub big_endian : ℕ → Bytes → ℕ
big_endian acc [] = acc
big_endian acc (b ∷ bs) = big_endian (acc * 256 + b) bs

bitset8_value :
    (acc b : ℕ) (rest : Bytes)
    → b < 256
    → binary_value acc (bitset8 b ++ rest) ≡ binary_value (acc * 256 + b) rest
unfolding bitset8 binary_value
bitset8_value acc b rest h =
    let e : ((((((((acc * 2 + b / 128 % 2) * 2 + b / 64 % 2) * 2 + b / 32 % 2) * 2 + b / 16 % 2) * 2
                      + b / 8 % 2)
                    * 2
                  + b / 4 % 2)
                * 2
              + b / 2 % 2)
            * 2
          + b % 2)
        ≡ acc * 256 + b =
      omega arith in
    rw e

bin_str_value :
    (acc : ℕ) (bs : Bytes) → All IsByte bs → binary_value acc (bin_str bs) ≡ big_endian acc bs
unfolding bin_str binary_value
bin_str_value acc [] h = refl
bin_str_value acc (b ∷ bs) h =
    bitset8_value acc b (bin_str bs) h.0 ∙ bin_str_value (acc * 256 + b) bs h.1

-- On a nonempty byte string `bytesToInt` gives the big-endian value, and throws where that exceeds an `int`; on the empty one it throws.
pub bytes_to_int-big_endian :
    (b : ℕ) (bs : Bytes)
    → All IsByte (b ∷ bs)
    → (bytes_to_int (b ∷ bs) ≡ (
        if leb (big_endian 0 (b ∷ bs)) max_int
        then ok (big_endian 0 (b ∷ bs))
        else throws out_of_range))
      × (bytes_to_int [] ≡ throws invalid_argument)
unfolding bytes_to_int bitset8
bytes_to_int-big_endian b bs h = (rw (bin_str_value 0 (b ∷ bs) h), refl)
