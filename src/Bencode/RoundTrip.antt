-- ===== src/Bencode/RoundTrip.antt =====
-- Decoding gives back what was encoded.
use ufo_torrent.Common.{
  ℕ, zero, suc, ◌+◌, ◌-◌, ◌*◌, ◌^◌, ◌≤◌, ◌<◌, false, [], ◌∷◌, ◌++◌, append-nil, append_assoc, Bytes,
  Option, some, ◌==◌, length, is_empty, get_or, drop, ok, ◌≡◌, refl, sym, ap, ◌∙◌, arith,
  length-append, take-append, drop-append,
}
use ufo_torrent.Common.Decimal.{to_string, to_string-IsDigit, to_string_head, IsDigit}
use ufo_torrent.Bencode.{
  Value, Values, Entries, int, unsigned, string, list, dict, nil, cons, leaf, entry, put, encode,
}
use ufo_torrent.Bencode.Decode.{
  returned, find_first, cast_int, decode_int, to_key, decode_value, decode_items, decode_entries,
  decode,
}
use ufo_torrent.Bencode.Text.{
  text, texts, entry_texts, integer_text, string_text, magnitude, IsText, IsPlain, ArePlain,
  HasPlain, decoded, decoded_values, decoded_entries, encode_value-text,
}
use ufo_torrent.Bencode.Strings.{find_first-append, decode_string-text}
use ufo_torrent.Bencode.Order.{
  AllAfter, joined, AllAfter-leaf, joined_leaf, put_last, joined_last, AllAfter-last, IsNatural-lt,
}

-- `boost::lexical_cast` reads back what `std::to_string` prints.
abbrev pub ReadsNumbers : (Bytes → Option ℕ) → Type 0
ReadsNumbers cast = (n : ℕ) → n < 2 ^ 64 → cast (to_string n) ≡ some n

module _ (cast : Bytes → Option ℕ) (reads : ReadsNumbers cast) where
  decode_int-text :
      (n : ℕ) (rest : Bytes)
      → n < 2 ^ 31
      → decode_int cast (integer_text n ++ rest) ≡ returned (n, length (integer_text n))
  unfolding decode_int find_first cast_int
  decode_int-text n rest h =
      let ds = to_string n in
      let whole : (ds ++ (b'e' ∷ [])) ++ rest ≡ ds ++ (b'e' ∷ rest) =
        append_assoc ds (b'e' ∷ []) rest in
      let found : find_first b'e' (b'i' ∷ (ds ++ (b'e' ∷ rest))) ≡ some (suc (length ds)) =
        rw (find_first-append ds rest (to_string-IsDigit n)) refl in
      let size : length (integer_text n) ≡ suc (length ds) + 1 =
        omega (arith, length-append ds (b'e' ∷ [])) in
      let back : suc (length ds) - 1 ≡ length ds = omega arith in
      rw
        (
          whole,
          size,
          decode_int,
          found,
          cast_int,
          whole,
          back,
          take-append (length ds) ds (b'e' ∷ rest) refl,
          reads n (omega arith),
        )
        refl

  -- One round of each loop, where the input goes on.
  decode_items_step :
      (f i n m : ℕ) (s : Bytes) (v : Value) (vs : Values)
      → is_empty s ≡ false
      → (get_or s 0 0 == b'e') ≡ false
      → decode_value cast f s ≡ returned (v, n)
      → decode_items cast f (drop n s) (i + n) ≡ returned (vs, m)
      → decode_items cast (suc f) s i ≡ returned (cons v vs, m)
  unfolding decode_value
  decode_items_step f i n m s v vs more other first rest = rw (more, other, first, rest) refl

  decode_entries_step :
      (f i n m : ℕ) (s k : Bytes) (v : Value) (d : Entries)
      → is_empty s ≡ false
      → (get_or s 0 0 == b'e') ≡ false
      → decode_value cast f s ≡ returned (string k, n)
      → decode_value cast f (drop n s) ≡ returned (v, m)
      → decode_entries cast (suc f) s i d
        ≡ decode_entries cast f (drop m (drop n s)) (i + n + m) (put k v d)
  unfolding decode_value to_key
  decode_entries_step f i n m s k v d more other first second = rw (more, other, first, second) refl

  string_head :
      (t rest : Bytes)
      → (is_empty (string_text t ++ rest) ≡ false)
        × IsDigit (get_or (string_text t ++ rest) 0 0)
        × (0 < length (string_text t))
  string_head t rest =
      let (c, cs, starts, digit) = to_string_head (length t) in rw starts (refl, digit, omega arith)

  decode_value_string :
      (f : ℕ) (t rest : Bytes)
      → IsText t
      → decode_value cast (suc f) (string_text t ++ rest)
        ≡ returned (string t, length (string_text t))
  unfolding decode_value
  decode_value_string f t rest h =
      let (more, digit, positive) = string_head t rest in
      let no_int : (get_or (string_text t ++ rest) 0 0 == b'i') ≡ false = ground (arith, digit) in
      let no_list : (get_or (string_text t ++ rest) 0 0 == b'l') ≡ false = ground (arith, digit) in
      let no_dict : (get_or (string_text t ++ rest) 0 0 == b'd') ≡ false = ground (arith, digit) in
      rw (decode_string-text t rest h, more, no_int, no_list, no_dict) refl

  -- A text begins with a character that ends no list.
  text_head :
      (v : Value) (rest : Bytes)
      → (is_empty (text v ++ rest) ≡ false)
        × ((get_or (text v ++ rest) 0 0 == b'e') ≡ false)
        × (0 < length (text v))
  text_head (int z) rest = (refl, refl, omega arith)
  text_head (unsigned n) rest = (refl, refl, omega arith)
  text_head (string t) rest =
      let (more, digit, positive) = string_head t rest in
      let other : (get_or (string_text t ++ rest) 0 0 == b'e') ≡ false = ground (arith, digit) in
      (more, other, positive)
  text_head (list xs) rest = (refl, refl, omega arith)
  text_head (dict es) rest = (refl, refl, omega arith)

  decode_value_key :
      (f : ℕ) (t rest : Bytes)
      → IsText t
      → 0 < f
      → decode_value cast f (string_text t ++ rest) ≡ returned (string t, length (string_text t))
  decode_value_key zero t rest h k = absurd (omega arith)
  decode_value_key (suc f) t rest h k = decode_value_string f t rest h

  mutual
    unfolding decode_value

    decode_value-text :
        (v : Value)
        → IsPlain v
        → (f : ℕ) (rest : Bytes) → length (text v) ≤ f
        → decode_value cast f (text v ++ rest) ≡ returned (decoded v, length (text v))
    decode_value-text (int z) h zero rest k = absurd (omega arith)
    decode_value-text (int z) h (suc f) rest k =
        rw (decode_int-text (magnitude z) rest (IsNatural-lt z h)) refl
    decode_value-text (unsigned n) h zero rest k = absurd (omega arith)
    decode_value-text (unsigned n) h (suc f) rest k = rw (decode_int-text n rest h) refl
    decode_value-text (string t) h zero rest k = absurd (omega (arith, (string_head t rest).2))
    decode_value-text (string t) h (suc f) rest k = decode_value_string f t rest h
    decode_value-text (list xs) h zero rest k = absurd (omega arith)
    decode_value-text (list xs) h (suc f) rest k =
        let size = length-append (texts xs) (b'e' ∷ []) in
        rw
          (
            append_assoc (texts xs) (b'e' ∷ []) rest,
            decode_items-texts xs h f 1 rest (omega (arith, size)),
            size,
          )
          (ap (λ m. returned (list (decoded_values xs), m)) (omega arith))
    decode_value-text (dict es) h zero rest k = absurd (omega arith)
    decode_value-text (dict es) h (suc f) rest k =
        let size = length-append (entry_texts es) (b'e' ∷ []) in
        rw
          (
            append_assoc (entry_texts es) (b'e' ∷ []) rest,
            decode_entries-texts es h f 1 rest leaf (omega (arith, size)) (AllAfter-leaf es),
            size,
          )
          (ap (λ m. returned (dict (decoded_entries es), m)) (omega arith))

    decode_items-texts :
        (xs : Values)
        → ArePlain xs
        → (f i : ℕ) (rest : Bytes) → length (texts xs) + 1 ≤ f
        → decode_items cast f (texts xs ++ (b'e' ∷ rest)) i
          ≡ returned (decoded_values xs, i + length (texts xs) + 1)
    decode_items-texts xs h zero i rest k = absurd (omega arith)
    decode_items-texts nil h (suc f) i rest k = ap (λ m. returned (nil, m)) (omega arith)
    decode_items-texts (cons v vs) h (suc f) i rest k =
        let after : Bytes = texts vs ++ (b'e' ∷ rest) in
        let (more, other, positive) = text_head v after in
        let size = length-append (text v) (texts vs) in
        let tail = decode_items-texts vs h.1 f (i + length (text v)) rest (omega (arith, size)) in
        rw (append_assoc (text v) (texts vs) (b'e' ∷ rest), size)
          (decode_items_step f i (length (text v)) _ (text v ++ after) (decoded v)
            (decoded_values vs) more other (decode_value-text v h.0 f after (omega (arith, size)))
            (rw (drop-append (length (text v)) (text v) after refl)
              (tail ∙ ap (λ m. returned (decoded_values vs, m)) (omega arith))))

    decode_entries-texts :
        (es : Entries)
        → HasPlain es
        → (f i : ℕ) (rest : Bytes) (d : Entries) → length (entry_texts es) + 1 ≤ f
        → AllAfter d es
        → decode_entries cast f (entry_texts es ++ (b'e' ∷ rest)) i d
          ≡ returned (joined d (decoded_entries es), i + length (entry_texts es) + 1)
    decode_entries-texts es h zero i rest d k o = absurd (omega arith)
    decode_entries-texts leaf h (suc f) i rest d k o =
        rw (joined_leaf d) (ap (λ m. returned (d, m)) (omega arith))
    decode_entries-texts (entry q v es) h (suc f) i rest d k o =
        let after : Bytes = entry_texts es ++ (b'e' ∷ rest) in
        let s : Bytes = string_text q ++ (text v ++ after) in
        let (more, other, positive) = text_head (string q) (text v ++ after) in
        let n = length (string_text q) in
        let m = length (text v) in
        let size : length (entry_texts (entry q v es)) ≡ n + (m + length (entry_texts es)) = omega (
          arith,
          length-append (string_text q) (text v ++ entry_texts es),
          length-append (text v) (entry_texts es),
        ) in
        let whole : entry_texts (entry q v es) ++ (b'e' ∷ rest) ≡ s =
          append_assoc (string_text q) (text v ++ entry_texts es) (b'e' ∷ rest)
          ∙ ap (λ (l : Bytes). string_text q ++ l)
              (append_assoc (text v) (entry_texts es) (b'e' ∷ rest)) in
        let at_value : drop n s ≡ text v ++ after =
          drop-append n (string_text q) (text v ++ after) refl in
        let at_rest : drop m (drop n s) ≡ after =
          ap (λ (l : Bytes). drop m l) at_value ∙ drop-append m (text v) after refl in
        let first = decode_value_key f q (text v ++ after) h.0 (omega (arith, positive, size)) in
        let second : decode_value cast f (drop n s) ≡ returned (decoded v, m) =
          ap (decode_value cast f) at_value
          ∙ decode_value-text v h.1 f after (omega (arith, positive, size)) in
        let tail =
          decode_entries-texts es h.3 f (i + n + m) rest (joined d (entry q (decoded v) leaf))
            (omega (arith, positive, size)) (AllAfter-last q (decoded v) d es o.1 h.2) in
        ap (λ (l : Bytes). decode_entries cast (suc f) l i d) whole
        ∙ decode_entries_step f i n m s q (decoded v) d more other first second
        ∙ rw (at_rest, put_last q (decoded v) d o.0)
            (tail
              ∙ rw (joined_last q (decoded v) d (decoded_entries es), size)
                  (ap (λ j. returned (joined d (entry q (decoded v) (decoded_entries es)), j))
                    (omega arith)))

  -- A value whose integers are not negative and fit in an `int`, whose strings are not empty, and whose dictionaries are in order, is encoded without an exception, and decoding the text gives it back, with `unsigned long long` for the integers.
  pub decode-encode :
      (v : Value)
      → IsPlain v
      → (bytes : Bytes) × (encode v ≡ ok bytes) × (decode cast bytes ≡ returned (decoded v))
  unfolding encode decode
  decode-encode v h =
      let fuel : length (text v) ≤ 2 * length (text v) + 1 = omega arith in
      let back : decode_value cast (2 * length (text v) + 1) (text v)
          ≡ returned (decoded v, length (text v)) =
        ap (decode_value cast (2 * length (text v) + 1)) (sym (append-nil (text v)))
        ∙ decode_value-text v h (2 * length (text v) + 1) [] fuel in
      (text v, encode_value-text v h, rw back refl)
