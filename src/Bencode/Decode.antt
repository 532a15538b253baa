-- ===== src/Bencode/Decode.antt =====
-- src/bencode/decode.cpp. A suffix of the input stands for an index into it; inputs are shorter
-- than 2 ^ 31, so that an index fits in an `int`. `boost::lexical_cast` is a parameter.
use ufo_torrent.Common.{
  ℕ, zero, suc, ◌+◌, ◌-◌, ◌*◌, not, ◌||◌, [], ◌∷◌, ◌++◌, Bytes, Option, none, some, ltb, ◌==◌,
  if◌then◌else◌, length, is_empty, get_or, take, drop, Exception, invalid_argument, out_of_range,
  Outcome, ok, throws,
}
use ufo_torrent.Common.Decimal.{decimal_value, is_digit}
use ufo_torrent.Utils.{max_int}
use ufo_torrent.Bencode.{
  Value, Values, Entries, int, unsigned, string, list, dict, nil, cons, leaf, put,
}

-- What a call of the decoder ends in. The last one is of the model only.
pub data Decoding {ℓ} (A : Type ℓ) : Type ℓ where
  returned : A → Decoding A
  threw : Exception → Decoding A
  undefined : Decoding A
  out_of_fuel : Decoding A

infixl 5 ◌>>=◌
abbrev pub ◌>>=◌ {ℓ κ} : {A : Type ℓ} {B : Type κ} → Decoding A → (A → Decoding B) → Decoding B
returned a >>= f = f a
threw e >>= f = threw e
undefined >>= f = undefined
out_of_fuel >>= f = out_of_fuel

-- What the caller of the decoder gets. The decoder never runs out of fuel.
abbrev pub outcome {ℓ} : {A : Type ℓ} → Decoding A → Outcome A
outcome (returned a) = ok a
outcome (threw e) = throws e
outcome undefined = Outcome.undefined
outcome out_of_fuel = Outcome.undefined

-- `firstDigit`: the first row of digits, with `number` read so far.
unfoldable pub first_digit : Bytes → Bytes → Bytes
first_digit number [] = number
first_digit number (c ∷ s) =
    let skipped = first_digit number s in
    let taken = first_digit (number ++ (c ∷ [])) s in
    if is_digit c then taken else if is_empty number then skipped else number

-- `find_first_of`.
unfoldable pub find_first : ℕ → Bytes → Option ℕ
find_first c [] = none
find_first c (b ∷ s) =
    let rest = find_first c s in
    if b == c then some 0 else elim rest [ none ↦ none | some i ↦ some (suc i) ]

-- `std::stoi` of a row of digits.
unfoldable pub stoi : Bytes → Decoding ℕ
stoi digits =
    let n = decimal_value 0 digits in if ltb max_int n then threw out_of_range else returned n

-- The rest of `decodestring`, with the length read. The sum of the sizes is an `int`.
unfoldable pub decode_text : Bytes → ℕ → ℕ → Decoding (Bytes × ℕ)
decode_text s digits size =
    if ltb (length s) (digits + 1) || not (get_or s digits 0 == b':')
    then threw invalid_argument
    else if ltb max_int (digits + 1 + size)
    then undefined
    else if ltb (length s) (digits + 1 + size)
    then threw invalid_argument
    else returned (take size (drop (digits + 1) s), digits + 1 + size)

-- `decodestring`.
unfoldable pub decode_string : Bytes → Decoding (Bytes × ℕ)
unfolding first_digit stoi decode_text
decode_string s =
    if is_empty s || not (is_digit (get_or s 0 0))
    then threw invalid_argument
    else (let part = first_digit [] s in stoi part >>= λ size. decode_text s (length part) size)

module _ (lexical_cast : Bytes → Option ℕ) where
  -- `stringToUnsignedLongLong` and the end of `decodeInt`, for the `e` at the index.
  unfoldable pub cast_int : Bytes → ℕ → Decoding (ℕ × ℕ)
  cast_int s e = elim (lexical_cast (take (e - 1) (drop 1 s))) [
    | none ↦ threw invalid_argument
    | some n ↦ returned (n, e + 1)
  ]

  -- `decodeInt`.
  unfoldable pub decode_int : Bytes → Decoding (ℕ × ℕ)
  unfolding find_first cast_int
  decode_int s = elim (find_first b'e' s) [ none ↦ threw invalid_argument | some e ↦ cast_int s e ]

-- The key of an entry is a string.
unfoldable pub to_key : Value → Decoding Bytes
to_key (int z) = threw invalid_argument
to_key (unsigned n) = threw invalid_argument
to_key (string k) = returned k
to_key (list xs) = threw invalid_argument
to_key (dict es) = threw invalid_argument

-- `_decode`, and the loops of `decodeList` and `decodeDict` on what is left of the input, with the
-- index that the loop has reached. The second index of `decodeDict` is inside the input.
unfoldable mutual
  unfolding decode_int decode_string to_key put

  pub decode_value : (Bytes → Option ℕ) → ℕ → Bytes → Decoding (Value × ℕ)
  decode_value cast zero s = out_of_fuel
  decode_value cast (suc f) s =
      let xs = decode_items cast f (drop 1 s) 1 >>= λ (vs, n). returned (list vs, n) in
      let es = decode_entries cast f (drop 1 s) 1 leaf >>= λ (d, n). returned (dict d, n) in
      let c = get_or s 0 0 in
      if is_empty s
      then threw invalid_argument
      else if c == b'i'
      then (decode_int cast s >>= λ (z, n). returned (unsigned z, n))
      else if c == b'l'
      then xs
      else if c == b'd'
      then es
      else (decode_string s >>= λ (t, n). returned (string t, n))

  pub decode_items : (Bytes → Option ℕ) → ℕ → Bytes → ℕ → Decoding (Values × ℕ)
  decode_items cast zero s index = out_of_fuel
  decode_items cast (suc f) s index =
      let more = decode_value cast f s >>= λ (v, n).
      decode_items cast f (drop n s) (index + n) >>= λ (vs, m). returned (cons v vs, m) in
      if is_empty s
      then returned (nil, index)
      else if get_or s 0 0 == b'e'
      then returned (nil, index + 1)
      else more

  pub decode_entries : (Bytes → Option ℕ) → ℕ → Bytes → ℕ → Entries → Decoding (Entries × ℕ)
  decode_entries cast zero s index d = out_of_fuel
  decode_entries cast (suc f) s index d =
      let more = decode_value cast f s >>= λ (key_value, n). to_key key_value >>= λ key.
      decode_value cast f (drop n s) >>= λ (v, m).
      decode_entries cast f (drop m (drop n s)) (index + n + m) (put key v d) in
      if is_empty s
      then returned (d, index)
      else if get_or s 0 0 == b'e'
      then returned (d, index + 1)
      else more

-- `Decoder::decode`. Each call takes a byte at least, after one round of a loop at most.
unfoldable pub decode : (Bytes → Option ℕ) → Bytes → Decoding Value
unfolding decode_value
decode cast s = decode_value cast (2 * length s + 1) s >>= λ (v, n). returned v
