-- ===== src/Bencode/Strings.antt =====
-- How the decoder reads numbers and strings.
use ufo_torrent.Common.{
  ℕ, suc, ◌+◌, ◌≤◌, ◌<◌, false, [], ◌∷◌, ◌++◌, append-nil, append_assoc, All, Bytes, some, ltb,
  ◌==◌, length, get_or, drop, ◌≡◌, refl, sym, ◌∙◌, arith, ge→ltb, length-append, take-append,
}
use ufo_torrent.Common.Decimal.{
  to_string, decimal_value, decimal_value-to_string, to_string-IsDigit, to_string_head, IsDigit,
}
use ufo_torrent.Utils.{max_int}
use ufo_torrent.Bencode.Decode.{returned, first_digit, find_first, stoi, decode_text, decode_string}
use ufo_torrent.Bencode.Text.{string_text, IsText}

first_digit-append :
    (number ds rest : Bytes)
    → All IsDigit ds
    → 0 < length number + length ds
    → first_digit number (ds ++ (b':' ∷ rest)) ≡ number ++ ds
unfolding first_digit
first_digit-append [] [] rest d h = absurd (omega arith)
first_digit-append (c ∷ number) [] rest d h = sym (append-nil (c ∷ number))
first_digit-append number (c ∷ ds) rest d h =
    let more =
      first_digit-append (number ++ (c ∷ [])) ds rest d.1
        (omega (arith, length-append number (c ∷ []))) in
    rw (d.0, first_digit) (more ∙ append_assoc number (c ∷ []) ds)

pub find_first-append :
    (ds rest : Bytes) → All IsDigit ds → find_first b'e' (ds ++ (b'e' ∷ rest)) ≡ some (length ds)
unfolding find_first
find_first-append [] rest d = refl
find_first-append (c ∷ ds) rest d =
    let other : (c == b'e') ≡ false = ground (arith, d.0) in
    rw (other, find_first, find_first-append ds rest d.1) refl

get_or_at : (ds x : Bytes) (c : ℕ) → get_or (ds ++ (c ∷ x)) (length ds) 0 ≡ c
get_or_at [] x c = refl
get_or_at (d ∷ ds) x c = get_or_at ds x c

drop_past : (ds x : Bytes) (c : ℕ) → drop (length ds + 1) (ds ++ (c ∷ x)) ≡ x
drop_past [] x c = refl
drop_past (d ∷ ds) x c =
    let e : suc (length ds) + 1 ≡ suc (length ds + 1) = omega arith in rw e (drop_past ds x c)

decode_text-append :
    (ds t rest : Bytes)
    → length ds + 1 + length t ≤ max_int
    → decode_text (ds ++ (b':' ∷ (t ++ rest))) (length ds) (length t)
      ≡ returned (t, length ds + 1 + length t)
unfolding decode_text
decode_text-append ds t rest h = ground (
  arith,
  length-append ds (b':' ∷ (t ++ rest)),
  length-append t rest,
  get_or_at ds (t ++ rest) b':',
  drop_past ds (t ++ rest) b':',
  take-append (length t) t rest refl,
)

decode_string-digits :
    (ds t rest : Bytes)
    → All IsDigit ds
    → 0 < length ds
    → decimal_value 0 ds ≡ length t
    → length ds + 1 + length t ≤ max_int
    → decode_string (ds ++ (b':' ∷ (t ++ rest))) ≡ returned (t, length ds + 1 + length t)
unfolding decode_string stoi
decode_string-digits [] t rest d h v k = absurd (omega arith)
decode_string-digits (c ∷ cs) t rest d h v k =
    let part : first_digit (c ∷ []) (cs ++ (b':' ∷ (t ++ rest))) ≡ c ∷ cs =
      first_digit-append (c ∷ []) cs (t ++ rest) d.1 (omega arith) in
    let small : ltb max_int (length t) ≡ false = ge→ltb _ _ (omega arith) in
    rw (d.0, part, v, small) (decode_text-append (c ∷ cs) t rest k)

pub decode_string-text :
    (t rest : Bytes)
    → IsText t
    → decode_string (string_text t ++ rest) ≡ returned (t, length (string_text t))
decode_string-text t rest h =
    let ds = to_string (length t) in
    let (c, cs, starts, digit) = to_string_head (length t) in
    let size : length (string_text t) ≡ length ds + 1 + length t =
      omega (arith, length-append ds (b':' ∷ t)) in
    rw (append_assoc ds (b':' ∷ t) rest, size)
      (decode_string-digits ds t rest (to_string-IsDigit (length t)) (rw starts (omega arith))
        (decimal_value-to_string (length t)) (omega (arith, h.1, size)))
