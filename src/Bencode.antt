-- ===== src/Bencode.antt =====
-- includes/valueTypes.h and src/bencode/encode.cpp: bencoded values and their encoding.
pub mod Decode
pub mod Text
pub mod Strings
pub mod Order
pub mod RoundTrip
pub mod Total
use ufo_torrent.Common.{
  [], ℕ, suc, Bool, true, false, ◌&&◌, ◌||◌, ◌∷◌, ◌++◌, Bytes, Option, none, some, ltb, ◌==◌, beq,
  if◌then◌else◌, length, is_empty, Outcome, ok, throws, invalid_argument, ◌>>=◌,
}
use ufo_torrent.Common.Decimal.{to_string}
use ufo_torrent.Common.Int.{ℤ, pos, negsuc, to_int}

-- `bencode::Value`; `int` and `unsigned long long` are two alternatives of it. The entries of a
-- dictionary stand in the order of their keys, as in `std::map`.
mutual
  pub data Value : Type 0 where
    int : ℤ → Value
    unsigned : ℕ → Value
    string : Bytes → Value
    list : Values → Value
    dict : Entries → Value

  pub data Values : Type 0 where
    nil : Values
    cons : Value → Values → Values

  pub data Entries : Type 0 where
    leaf : Entries
    entry : Bytes → Value → Entries → Entries

-- The order of `std::string`.
unfoldable pub less : Bytes → Bytes → Bool
less xs [] = false
less [] (y ∷ ys) = true
less (x ∷ xs) (y ∷ ys) = ltb x y || (x == y && less xs ys)

-- `dict[key] = value`.
unfoldable pub put : Bytes → Value → Entries → Entries
unfolding less
put k v leaf = entry k v leaf
put k v (entry j w es) =
    let rest = put k v es in
    if less k j then entry k v (entry j w es) else if less j k then entry j w rest else entry k v es

-- `dict.find(key)`.
unfoldable pub find : Bytes → Entries → Option Value
find k leaf = none
find k (entry j w es) = let rest = find k es in if beq j k then some w else rest

-- `std::to_string` of an `int`.
unfoldable pub int_text : ℤ → Bytes
int_text (pos n) = to_string n
int_text (negsuc n) = b'-' ∷ to_string (suc n)

-- `operator()` on an `int`, to which the other integers are converted.
unfoldable pub encode_int : ℤ → Outcome Bytes
unfolding int_text
encode_int z = ok (b'i' ∷ (int_text z ++ (b'e' ∷ [])))

-- `operator()` on a string.
unfoldable pub encode_string : Bytes → Outcome Bytes
encode_string bytes =
    if is_empty bytes
    then throws invalid_argument
    else ok (to_string (length bytes) ++ (b':' ∷ bytes))

-- The visitor on a value, on the elements of a vector and on the entries of a dictionary.
unfoldable mutual
  unfolding encode_int encode_string

  pub encode_value : Value → Outcome Bytes
  encode_value (int z) = encode_int z
  encode_value (unsigned n) = encode_int (to_int n)
  encode_value (string bytes) = encode_string bytes
  encode_value (list xs) = encode_values xs >>= λ bytes. ok (b'l' ∷ (bytes ++ (b'e' ∷ [])))
  encode_value (dict es) = encode_entries es >>= λ bytes. ok (b'd' ∷ (bytes ++ (b'e' ∷ [])))

  pub encode_values : Values → Outcome Bytes
  encode_values nil = ok []
  encode_values (cons v vs) =
      encode_value v >>= λ head. encode_values vs >>= λ tail. ok (head ++ tail)

  pub encode_entries : Entries → Outcome Bytes
  encode_entries leaf = ok []
  encode_entries (entry k v es) = encode_string k >>= λ key.
      encode_value v >>= λ head. encode_entries es >>= λ tail. ok (key ++ (head ++ tail))

-- `Encoder::encode`.
unfoldable pub encode : Value → Outcome Bytes
unfolding encode_value
encode v = encode_value v
