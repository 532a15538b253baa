-- ===== src/Bencode/Text.antt =====
-- The texts of values, as the format defines them, and that the encoder writes them.
use ufo_torrent.Common.{ℕ, ◌^◌, ◌≤◌, ◌<◌, true, [], ◌∷◌, ◌++◌, Bytes, length, ok, ◌≡◌, refl, arith}
use ufo_torrent.Common.Decimal.{to_string}
use ufo_torrent.Common.Int.{ℤ, pos, negsuc, to_int}
use ufo_torrent.Utils.{max_int}
use ufo_torrent.Bencode.{
  Value, Values, Entries, int, unsigned, string, list, dict, nil, cons, leaf, entry, less,
  encode_value, encode_values, encode_entries, encode_int, encode_string, int_text,
}

-- The text of an integer, and of a string, in the format's own terms.
abbrev pub integer_text : ℕ → Bytes
integer_text n = b'i' ∷ (to_string n ++ (b'e' ∷ []))

abbrev pub string_text : Bytes → Bytes
string_text t = to_string (length t) ++ (b':' ∷ t)

-- The absolute value, for integers that are not negative.
abbrev pub magnitude : ℤ → ℕ
magnitude (pos n) = n
magnitude (negsuc n) = 0

abbrev mutual
  pub text : Value → Bytes
  text (int z) = integer_text (magnitude z)
  text (unsigned n) = integer_text n
  text (string t) = string_text t
  text (list xs) = b'l' ∷ (texts xs ++ (b'e' ∷ []))
  text (dict es) = b'd' ∷ (entry_texts es ++ (b'e' ∷ []))

  pub texts : Values → Bytes
  texts nil = []
  texts (cons v vs) = text v ++ texts vs

  pub entry_texts : Entries → Bytes
  entry_texts leaf = []
  entry_texts (entry k v es) = string_text k ++ (text v ++ entry_texts es)

abbrev pub IsNatural : ℤ → Type 0
IsNatural (pos n) = n < 2 ^ 31
IsNatural (negsuc n) = ⊥

-- A string that the encoder takes, and whose text an `int` can measure.
abbrev pub IsText : Bytes → Type 0
IsText t = (0 < length t) × (length (string_text t) ≤ max_int)

-- The key is before all keys of the entries.
abbrev pub IsBefore : Bytes → Entries → Type 0
IsBefore k leaf = Unit {0}
IsBefore k (entry j w es) = (less k j ≡ true) × IsBefore k es

-- The values whose integers are not negative and fit in an `int`, whose strings are not empty, and whose keys are in order.
abbrev mutual
  pub IsPlain : Value → Type 0
  IsPlain (int z) = IsNatural z
  IsPlain (unsigned n) = n < 2 ^ 31
  IsPlain (string t) = IsText t
  IsPlain (list xs) = ArePlain xs
  IsPlain (dict es) = HasPlain es

  pub ArePlain : Values → Type 0
  ArePlain nil = Unit {0}
  ArePlain (cons v vs) = IsPlain v × ArePlain vs

  pub HasPlain : Entries → Type 0
  HasPlain leaf = Unit {0}
  HasPlain (entry k v es) = IsText k × IsPlain v × IsBefore k es × HasPlain es

-- The value that is read back: the same, but for the type of the integers.
abbrev mutual
  pub decoded : Value → Value
  decoded (int z) = unsigned (magnitude z)
  decoded (unsigned n) = unsigned n
  decoded (string t) = string t
  decoded (list xs) = list (decoded_values xs)
  decoded (dict es) = dict (decoded_entries es)

  pub decoded_values : Values → Values
  decoded_values nil = nil
  decoded_values (cons v vs) = cons (decoded v) (decoded_values vs)

  pub decoded_entries : Entries → Entries
  decoded_entries leaf = leaf
  decoded_entries (entry k v es) = entry k (decoded v) (decoded_entries es)

encode_int-text : (z : ℤ) → IsNatural z → encode_int z ≡ ok (integer_text (magnitude z))
unfolding encode_int int_text
encode_int-text (pos n) h = refl
encode_int-text (negsuc n) h = absurd h

encode_string-text : (t : Bytes) → IsText t → encode_string t ≡ ok (string_text t)
unfolding encode_string
encode_string-text [] h = absurd (omega (arith, h.0))
encode_string-text (c ∷ t) h = refl

to_int_small : (n : ℕ) → n < 2 ^ 31 → to_int n ≡ pos n
to_int_small n h = ground arith

mutual
  unfolding encode_value

  pub encode_value-text : (v : Value) → IsPlain v → encode_value v ≡ ok (text v)
  encode_value-text (int z) h = encode_int-text z h
  encode_value-text (unsigned n) h = rw (to_int_small n h) (encode_int-text (pos n) h)
  encode_value-text (string t) h = encode_string-text t h
  encode_value-text (list xs) h = rw (encode_values-text xs h) refl
  encode_value-text (dict es) h = rw (encode_entries-text es h) refl

  encode_values-text : (xs : Values) → ArePlain xs → encode_values xs ≡ ok (texts xs)
  encode_values-text nil h = refl
  encode_values-text (cons v vs) h = rw (encode_value-text v h.0, encode_values-text vs h.1) refl

  encode_entries-text : (es : Entries) → HasPlain es → encode_entries es ≡ ok (entry_texts es)
  encode_entries-text leaf h = refl
  encode_entries-text (entry k v es) h =
      rw (encode_string-text k h.0, encode_value-text v h.1, encode_entries-text es h.3) refl
