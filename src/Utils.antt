-- ===== src/Utils.antt =====
-- src/network_part/utils.cpp: the byte string helpers of the network part.
pub mod BitField
pub mod Integers
pub mod Text
use Prim.Native.Nat.{bit_or}
use ufo_torrent.Common.{
  ℕ, ◌+◌, ◌-◌, ◌*◌, ◌/◌, ◌%◌, ◌^◌, Bool, false, not, ◌&&◌, ◌||◌, [], ◌∷◌, ◌++◌, Bytes, Option, none,
  some, ltb, leb, ◌==◌, beq, if◌then◌else◌, length, is_empty, get_elem?, set, replicate, Outcome,
  ok, throws, undefined, invalid_argument, out_of_range, length_error, ◌>>=◌, ◌>>◌,
}
use ufo_torrent.Common.Int.{ℤ, pos, negsuc}
use ufo_torrent.Common.Decimal.{to_string, is_digit}

-- The largest `int`.
abbrev pub max_int : ℕ
max_int = 2 ^ 31 - 1

-- `hasPiece`. `bitField[i]` reads the terminating zero at `i == size()` and is undefined past it.
-- The shift of a signed `char` keeps the bits that `& 1` looks at.
unfoldable pub has_piece : Bytes → ℕ → Outcome Bool
has_piece bit_field index = elim (get_elem? bit_field (index / 8)) [
  | none ↦ if index / 8 == length bit_field then ok false else undefined
  | some b ↦ ok (not (b / 2 ^ (7 - index % 8) % 2 == 0))
]

-- `setPiece`. A write at or past `size()` is undefined.
unfoldable pub set_piece : Bytes → ℕ → Outcome Bytes
set_piece bit_field index = elim (get_elem? bit_field (index / 8)) [
  | none ↦ undefined
  | some b ↦ ok (set bit_field (index / 8) (bit_or b (2 ^ (7 - index % 8))))
]

-- `std::bitset<8>(b).to_string()`, as the digits of the string.
unfoldable pub bitset8 : ℕ → Bytes
bitset8 b =
    (b / 128 % 2)
    ∷ (b / 64 % 2)
    ∷ (b / 32 % 2)
    ∷ (b / 16 % 2)
    ∷ (b / 8 % 2)
    ∷ (b / 4 % 2)
    ∷ (b / 2 % 2)
    ∷ (b % 2)
    ∷ []

-- The loop of `bytesToInt`, which appends eight digits for each byte.
unfoldable pub bin_str : Bytes → Bytes
unfolding bitset8
bin_str [] = []
bin_str (b ∷ bs) = bitset8 b ++ bin_str bs

-- The number that a string of binary digits stands for, read on from `acc`.
unfoldable pub binary_value : ℕ → Bytes → ℕ
binary_value acc [] = acc
binary_value acc (d ∷ ds) = binary_value (acc * 2 + d) ds

-- `stoi(s, 0, 2)` of a string of digits: no digit is an invalid argument, and a value that does
-- not fit an `int` is out of range.
unfoldable pub stoi2 : Bytes → Outcome ℕ
unfolding binary_value
stoi2 s =
    if is_empty s
    then throws invalid_argument
    else if leb (binary_value 0 s) max_int
    then ok (binary_value 0 s)
    else throws out_of_range

unfoldable pub bytes_to_int : Bytes → Outcome ℕ
unfolding stoi2 bin_str
bytes_to_int bytes = stoi2 (bin_str bytes)

-- `std::isalnum` in the C locale.
abbrev pub is_alnum : ℕ → Bool
is_alnum c = is_digit c || (leb b'A' c && leb c b'Z') || (leb b'a' c && leb c b'z')

-- The characters that `urlEncode` keeps.
unfoldable pub is_unreserved : ℕ → Bool
is_unreserved c = is_alnum c || c == b'-' || c == b'_' || c == b'.' || c == b'~'

-- A hexadecimal digit in upper case.
unfoldable pub hex_digit : ℕ → ℕ
hex_digit d = if ltb d 10 then b'0' + d else b'A' + (d - 10)

-- `urlEncode`. A byte from 128 on is a negative char, of which `isalnum` is undefined.
-- `isalnum` is defined of the char: it is not negative, or it is the one that equals EOF.
unfoldable pub is_classified : ℕ → Bool
is_classified c = ltb c 128 || c == 255

-- `urlEncode`.
unfoldable pub url_encode : Bytes → Outcome Bytes
unfolding is_classified is_unreserved hex_digit
url_encode [] = ok []
url_encode (c ∷ cs) =
    let rest = url_encode cs in
    if is_classified c
    then (rest >>= λ r.
        ok (if is_unreserved c then c ∷ r else b'%' ∷ hex_digit (c / 16) ∷ hex_digit (c % 16) ∷ r))
    else undefined

unfoldable pub hex_encode : Bytes → Bytes
unfolding hex_digit
hex_encode [] = []
hex_encode (c ∷ cs) = b'\\' ∷ b'x' ∷ hex_digit (c / 16) ∷ hex_digit (c % 16) ∷ hex_encode cs

-- The value of a hexadecimal digit of either case.
unfoldable pub digit_value : ℕ → Option ℕ
digit_value c =
    if is_digit c
    then some (c - b'0')
    else if leb b'A' c && leb c b'F'
    then some (c - b'A' + 10)
    else if leb b'a' c && leb c b'f'
    then some (c - b'a' + 10)
    else none

-- The digits that `strtol` reads: it stops at the first character that is none.
unfoldable pub read_hex : ℕ → Bytes → ℕ
unfolding digit_value
read_hex acc [] = acc
read_hex acc (c ∷ cs) = elim (digit_value c) [ none ↦ acc | some d ↦ read_hex (acc * 16 + d) cs ]

-- The sign that `strtol` accepts, and the value as a `char`.
unfoldable pub signed_hex : Bytes → ℕ
unfolding read_hex
signed_hex [] = 0
signed_hex (c ∷ cs) =
    if c == b'-'
    then (256 - read_hex 0 cs % 256) % 256
    else if c == b'+'
    then read_hex 0 cs % 256
    else read_hex 0 (c ∷ cs) % 256

-- `(char)(int)strtol(s, nullptr, 16)`, which skips white space first.
unfoldable pub strtol16 : Bytes → ℕ
unfolding signed_hex
strtol16 [] = 0
strtol16 (c ∷ cs) = if c == 32 || (leb 9 c && leb c 13) then strtol16 cs else signed_hex (c ∷ cs)

-- `hexDecode` takes two characters at a time; an odd last one is read alone.
unfoldable pub hex_decode : Bytes → Bytes
unfolding strtol16
hex_decode [] = []
hex_decode (a ∷ []) = strtol16 (a ∷ []) ∷ []
hex_decode (a ∷ b ∷ rest) = strtol16 (a ∷ b ∷ []) ∷ hex_decode rest

-- `std::string(2 - s.length(), '0') + s`: the length is a `size_t`, so that a longer text asks
-- for a string longer than any.
unfoldable pub pad2 : Bytes → Outcome Bytes
pad2 s = if leb (length s) 2 then ok (replicate (2 - length s) b'0' ++ s) else throws length_error

-- The last step of `formatTime`: hours only where they are not "00".
unfoldable pub join_time : Bytes → Bytes → Bytes → Bytes
join_time hh mm ss =
    if beq hh (b'0' ∷ b'0' ∷ []) then mm ++ (b':' ∷ ss) else hh ++ (b':' ∷ (mm ++ (b':' ∷ ss)))

unfoldable pub format_time : ℤ → Outcome Bytes
unfolding pad2 join_time
format_time (negsuc n) = ok (b'i' ∷ b'n' ∷ b'f' ∷ [])
format_time (pos seconds) = do
  hh ← pad2 (to_string (seconds / 3600))
  mm ← pad2 (to_string (seconds % 3600 / 60))
  ss ← pad2 (to_string (seconds % 60))
  ok (join_time hh mm ss)
