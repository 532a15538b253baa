-- ===== src/Utils/Text.antt =====
-- The text conversions of the network part: hexadecimal, percent encoding and times.
use ufo_torrent.Common.{
  ℕ, ◌+◌, ◌-◌, ◌*◌, ◌/◌, ◌%◌, ◌≤◌, ◌<◌, Bool, true, false, ◌&&◌, ◌||◌, [], ◌∷◌, ◌++◌, All, Bytes,
  IsByte, some, ltb, leb, ◌==◌, beq, if◌then◌else◌, Outcome, ok, throws, undefined, aborted,
  length_error, ◌>>=◌, ◌≡◌, refl, ap, subst, ◌≢◌, ◌⊎◌, inl, inr, arith, Bool-cases, ==_iff,
  eq_of_beq,
}
use ufo_torrent.Common.Bits.{below, below-lt}
use ufo_torrent.Common.Int.{pos}
use ufo_torrent.Common.Decimal.{to_string, length-to_string_ge}
use ufo_torrent.Utils.{
  hex_decode, hex_digit, digit_value, read_hex, signed_hex, strtol16, url_encode, is_unreserved,
  is_classified, is_alnum, pad2, format_time, join_time,
}

-- A byte as two hexadecimal digits; `ten` is the letter that stands for ten.
abbrev pub hex_pair : ℕ → ℕ → Bytes
hex_pair ten c =
    (if ltb (c / 16) 10 then b'0' + c / 16 else ten + (c / 16 - 10))
    ∷ (if ltb (c % 16) 10 then b'0' + c % 16 else ten + (c % 16 - 10))
    ∷ []

-- A byte string as hexadecimal digits.
abbrev pub hex_text : ℕ → Bytes → Bytes
hex_text ten [] = []
hex_text ten (c ∷ cs) = hex_pair ten c ++ hex_text ten cs

lower_table : below 256 (λ c. strtol16 (hex_pair b'a' c) == c) ≡ true
unfolding below strtol16 signed_hex read_hex digit_value
lower_table = refl

upper_table : below 256 (λ c. strtol16 (hex_pair b'A' c) == c) ≡ true
unfolding below strtol16 signed_hex read_hex digit_value
upper_table = refl

-- `hexDecode` gives the bytes back that were written as hexadecimal digits, in lower and in upper case.
pub hex_decode-hex_text :
    (bs : Bytes)
    → All IsByte bs
    → (hex_decode (hex_text b'a' bs) ≡ bs) × (hex_decode (hex_text b'A' bs) ≡ bs)
unfolding hex_decode
hex_decode-hex_text [] h = (refl, refl)
hex_decode-hex_text (c ∷ cs) h =
    let (lower, upper) = hex_decode-hex_text cs h.1 in
    (
      rw (
        (==_iff (strtol16 (hex_pair b'a' c)) c).0
            (below-lt 256 (λ c. strtol16 (hex_pair b'a' c) == c) c lower_table h.0),
        lower,
      ),
      rw (
        (==_iff (strtol16 (hex_pair b'A' c)) c).0
            (below-lt 256 (λ c. strtol16 (hex_pair b'A' c) == c) c upper_table h.0),
        upper,
      ),
    )

-- Percent decoding as the standard describes it: `%` and two hexadecimal digits stand for a byte, and every other character for itself.
pub data Decodes : Bytes → Bytes → Type 0 where
  done : Decodes [] []
  plain : {c : ℕ} {s t : Bytes} → c ≢ b'%' → Decodes s t → Decodes (c ∷ s) (c ∷ t)
  percent :
      {a b h l : ℕ} {s t : Bytes}
      → digit_value a ≡ some h
      → digit_value b ≡ some l
      → Decodes s t
      → Decodes (b'%' ∷ a ∷ b ∷ s) ((h * 16 + l) ∷ t)

hex_digit_value : (d : ℕ) → d < 16 → digit_value (hex_digit d) ≡ some d
unfolding digit_value hex_digit
hex_digit_value d h = ground arith

pub percent_byte :
    (c : ℕ) {s t : Bytes}
    → c < 256
    → Decodes s t
    → Decodes (b'%' ∷ hex_digit (c / 16) ∷ hex_digit (c % 16) ∷ s) (c ∷ t)
percent_byte c {s} {t} h d =
    let whole : c / 16 * 16 + c % 16 ≡ c = omega arith in
    subst (λ x. Decodes (b'%' ∷ hex_digit (c / 16) ∷ hex_digit (c % 16) ∷ s) (x ∷ t)) whole
      (percent (hex_digit_value (c / 16) (omega arith)) (hex_digit_value (c % 16) (omega arith)) d)

-- The characters that RFC 3986 leaves unreserved (section 2.3): digits, letters and four marks.
pub data IsUnreserved : ℕ → Type 0 where
  digit : {c : ℕ} → 48 ≤ c → c ≤ 57 → IsUnreserved c
  upper : {c : ℕ} → 65 ≤ c → c ≤ 90 → IsUnreserved c
  lower : {c : ℕ} → 97 ≤ c → c ≤ 122 → IsUnreserved c
  hyphen : {c : ℕ} → c ≡ 45 → IsUnreserved c
  full_stop : {c : ℕ} → c ≡ 46 → IsUnreserved c
  underscore : {c : ℕ} → c ≡ 95 → IsUnreserved c
  tilde : {c : ℕ} → c ≡ 126 → IsUnreserved c

-- What stands in percent-encoded text: an unreserved character or the percent sign.
abbrev IsSafe : ℕ → Type 0
IsSafe c = IsUnreserved c ⊎ (c ≡ b'%')

is_unreserved-IsUnreserved : (c : ℕ) → is_unreserved c ≡ true → IsUnreserved c
unfolding is_unreserved
is_unreserved-IsUnreserved c h = elim (Bool-cases (leb 48 c && leb c 57)) [
  | inl e ↦ digit (ground (arith, e)) (ground (arith, e))
  | inr n1 ↦ elim (Bool-cases (leb 65 c && leb c 90)) [
    | inl e ↦ upper (ground (arith, e)) (ground (arith, e))
    | inr n2 ↦ elim (Bool-cases (leb 97 c && leb c 122)) [
      | inl e ↦ lower (ground (arith, e)) (ground (arith, e))
      | inr n3 ↦ marks c h n1 n2 n3
    ]
  ]
]
  where
    marks :
        (c : ℕ)
        → (is_alnum c || c == b'-' || c == b'_' || c == b'.' || c == b'~') ≡ true
        → (leb 48 c && leb c 57) ≡ false
        → (leb 65 c && leb c 90) ≡ false
        → (leb 97 c && leb c 122) ≡ false
        → IsUnreserved c
    marks c h n1 n2 n3 = elim (Bool-cases (c == 45)) [
      | inl e ↦ hyphen (ground (arith, e))
      | inr m1 ↦ elim (Bool-cases (c == 46)) [
        | inl e ↦ full_stop (ground (arith, e))
        | inr m2 ↦ elim (Bool-cases (c == 95)) [
          | inl e ↦ underscore (ground (arith, e))
          | inr m3 ↦ tilde (ground (arith, h, n1, n2, n3, m1, m2, m3))
        ]
      ]
    ]

hex_digit-IsUnreserved : (d : ℕ) → d < 16 → IsUnreserved (hex_digit d)
unfolding is_unreserved hex_digit
hex_digit-IsUnreserved d h = is_unreserved-IsUnreserved (hex_digit d) (ground arith)

-- What the encoding of a text is: where `isalnum` is defined of every byte, a text of unreserved characters and percent signs that decodes to it, and undefined where it is not.
abbrev pub IsEncoding : Bool → Bytes → Outcome Bytes → Type 0
IsEncoding true bs o = (s : Bytes) × (o ≡ ok s) × All IsSafe s × Decodes s bs
IsEncoding false bs o = o ≡ undefined

-- No byte is a negative char other than that of EOF.
abbrev pub all_classified : Bytes → Bool
all_classified [] = true
all_classified (c ∷ cs) = (ltb c 128 || c == 255) && all_classified cs

encoded :
    (c : ℕ) (cs : Bytes) (o : Outcome Bytes)
    → c < 256
    → (b : Bool) → IsEncoding b cs o
    → IsEncoding b (c ∷ cs) (
        o >>= λ r.
        ok (if is_unreserved c then c ∷ r else b'%' ∷ hex_digit (c / 16) ∷ hex_digit (c % 16) ∷ r))
unfolding is_unreserved
encoded c cs o h false u = rw u refl
encoded c cs o h true (s, e, safe, decodes) = elim (Bool-cases (is_unreserved c)) [
  | inl keep ↦
      rw (e, keep)
        (
          c ∷ s,
          refl,
          (inl (is_unreserved-IsUnreserved c keep), safe),
          plain (ground (arith, keep)) decodes,
        )
  | inr escape ↦
      rw (e, escape)
        (
          b'%' ∷ hex_digit (c / 16) ∷ hex_digit (c % 16) ∷ s,
          refl,
          (
            inr refl,
            (
              inl (hex_digit-IsUnreserved (c / 16) (omega arith)),
              (inl (hex_digit-IsUnreserved (c % 16) (omega arith)), safe),
            ),
          ),
          percent_byte c h decodes,
        )
]

-- The output of `urlEncode` holds unreserved characters of RFC 3986 and percent signs only, and it decodes to the input; but with a byte from 128 to 254 the behaviour is undefined.
pub url_encode_lem :
    (bs : Bytes) → All IsByte bs → IsEncoding (all_classified bs) bs (url_encode bs)
unfolding url_encode is_classified
url_encode_lem [] h = ([], refl, tt, done)
url_encode_lem (c ∷ cs) h = elim (Bool-cases (ltb c 128 || c == 255)) [
  | inl good ↦
      rw (good, all_classified, url_encode)
        (encoded c cs (url_encode cs) h.0 (all_classified cs) (url_encode_lem cs h.1))
  | inr bad ↦ rw (bad, all_classified, url_encode) refl
]

-- Two digits of a number below one hundred.
abbrev pub two_digits : ℕ → Bytes
two_digits n = (b'0' + n / 10) ∷ (b'0' + n % 10) ∷ []

two_digits_table :
    below 100 (λ n. elim (pad2 (to_string n)) [ ok s ↦ beq s (two_digits n) | _ ↦ false ]) ≡ true
unfolding below pad2 to_string
two_digits_table = refl

pad2-to_string : (n : ℕ) → n < 100 → pad2 (to_string n) ≡ ok (two_digits n)
pad2-to_string n h = padded (pad2 (to_string n)) (
    below-lt 100 (λ n. elim (pad2 (to_string n)) [ ok s ↦ beq s (two_digits n) | _ ↦ false ]) n
      two_digits_table h)
  where
    padded :
        (r : Outcome Bytes)
        → (elim r [ ok s ↦ beq s (two_digits n) | _ ↦ false ]) ≡ true
        → r ≡ ok (two_digits n)
    padded (ok s) e = ap ok (eq_of_beq s (two_digits n) e)
    padded (throws x) e = cc
    padded undefined e = cc
    padded aborted e = cc

-- A number of three digits or more has no place in two characters.
pad2_long : (n : ℕ) → 100 ≤ n → pad2 (to_string n) ≡ throws length_error
unfolding pad2
pad2_long n h = ground (arith, length-to_string_ge n h)

-- `formatTime` gives hours, minutes and seconds with two digits each, without the hours where they are zero, and throws from one hundred hours on.
pub format_time_cases :
    (s : ℕ)
    → format_time (pos s) ≡ (
        if ltb s 3600
        then ok (two_digits (s / 60) ++ (b':' ∷ two_digits (s % 60)))
        else if ltb s 360000
        then ok (
            two_digits (s / 3600)
            ++ (b':' ∷ (two_digits (s % 3600 / 60) ++ (b':' ∷ two_digits (s % 60)))))
        else throws length_error)
unfolding format_time join_time
format_time_cases s = elim (Bool-cases (ltb s 360000)) [
  | inl short ↦
      rw
        (
          pad2-to_string (s / 3600) (ground (arith, short)),
          pad2-to_string (s % 3600 / 60) (omega arith),
          pad2-to_string (s % 60) (omega arith),
        )
        (ground (arith, short))
  | inr long ↦ rw (pad2_long (s / 3600) (ground (arith, long))) (ground (arith, long))
]
