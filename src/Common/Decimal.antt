-- ===== src/Common/Decimal.antt =====
-- `std::to_string` of a number and the reading of decimal digits.
use Prim.Native.Nat.{ℕ, zero, suc, ◌+◌, ◌-◌, ◌*◌, ◌/◌, ◌%◌, ◌<◌, ◌≤◌}
use mathlib.Core.Path.{◌≡◌, refl}
use mathlib.Core.Logic.{inl, inr}
use mathlib.Core.Bool.{Bool, true, ◌&&◌}
use mathlib.Core.List.{List, [], ◌∷◌, ◌++◌}
use native.Mathlib.Omega.{arith}
use ufo_torrent.Common.Tests.{ltb, leb, if◌then◌else◌, Bool-cases}
use ufo_torrent.Common.Lists.{length, All, All-append, length-append}

-- `std::isdigit`.
abbrev pub is_digit : ℕ → Bool
is_digit c = leb b'0' c && leb c b'9'

-- With fuel above the number every digit is printed.
decimal : ℕ → ℕ → List ℕ
decimal zero n = []
decimal (suc f) n =
    let rest = decimal f (n / 10) in
    if ltb n 10 then (b'0' + n) ∷ [] else rest ++ ((b'0' + n % 10) ∷ [])

-- `std::to_string`.
unfoldable pub to_string : ℕ → List ℕ
unfolding decimal
to_string n = decimal (suc n) n

-- The number that decimal digits stand for, read on from `acc`.
unfoldable pub decimal_value : ℕ → List ℕ → ℕ
decimal_value acc [] = acc
decimal_value acc (c ∷ cs) = decimal_value (acc * 10 + (c - b'0')) cs

decimal_value-append :
    (acc : ℕ) (xs ys : List ℕ)
    → decimal_value acc (xs ++ ys) ≡ decimal_value (decimal_value acc xs) ys
unfolding decimal_value
decimal_value-append acc [] ys = refl
decimal_value-append acc (x ∷ xs) ys = decimal_value-append (acc * 10 + (x - b'0')) xs ys

decimal_value-decimal : (f n : ℕ) → n < f → decimal_value 0 (decimal f n) ≡ n
unfolding decimal decimal_value
decimal_value-decimal zero n h = absurd (omega arith)
decimal_value-decimal (suc f) n h = ground (
  arith,
  decimal_value-append 0 (decimal f (n / 10)) ((b'0' + n % 10) ∷ []),
  decimal_value-decimal f (n / 10),
)

-- Reading back what was printed.
pub decimal_value-to_string : (n : ℕ) → decimal_value 0 (to_string n) ≡ n
unfolding to_string
decimal_value-to_string n = decimal_value-decimal (suc n) n (omega arith)

abbrev pub IsDigit : ℕ → Type 0
IsDigit c = is_digit c ≡ true

decimal-IsDigit : (f n : ℕ) → All IsDigit (decimal f n)
unfolding decimal
decimal-IsDigit zero n = tt
decimal-IsDigit (suc f) n = elim (Bool-cases (ltb n 10)) [
  | inl small ↦ rw small (ground arith, tt)
  | inr large ↦ rw large (
      All-append IsDigit (decimal f (n / 10)) ((b'0' + n % 10) ∷ []) (decimal-IsDigit f (n / 10))
        (ground arith, tt))
]

pub to_string-IsDigit : (n : ℕ) → All IsDigit (to_string n)
unfolding to_string
to_string-IsDigit n = decimal-IsDigit (suc n) n

-- A printed number begins with a digit.
pub to_string_head : (n : ℕ) → (c : ℕ) × (cs : List ℕ) × (to_string n ≡ c ∷ cs) × IsDigit c
unfolding to_string
to_string_head n = head_of (to_string n) (to_string-IsDigit n) (nonempty n)
  where
    nonempty : (n : ℕ) → 0 < length (to_string n)
    nonempty n = ground (arith, length-append (decimal n (n / 10)) ((b'0' + n % 10) ∷ []))

    head_of :
        (s : List ℕ)
        → All IsDigit s
        → 0 < length s
        → (c : ℕ) × (cs : List ℕ) × (s ≡ c ∷ cs) × IsDigit c
    head_of [] d h = absurd (omega arith)
    head_of (c ∷ cs) d h = (c, cs, refl, d.0)

pub length-to_string_ge : (n : ℕ) → 100 ≤ n → 3 ≤ length (to_string n)
unfolding to_string
length-to_string_ge n h = length-decimal n (suc n) (omega arith) h
  where
    one_digit : (f m : ℕ) → m < f → 1 ≤ length (decimal f m)
    one_digit zero m h = absurd (omega arith)
    one_digit (suc f) m h =
        ground (arith, length-append (decimal f (m / 10)) ((b'0' + m % 10) ∷ []))

    two : (f m : ℕ) → m < f → 10 ≤ m → 2 ≤ length (decimal f m)
    two zero m h k = absurd (omega arith)
    two (suc f) m h k =
        ground
          (arith, length-append (decimal f (m / 10)) ((b'0' + m % 10) ∷ []), one_digit f (m / 10))

    length-decimal : (m f : ℕ) → m < f → 100 ≤ m → 3 ≤ length (decimal f m)
    length-decimal m zero h k = absurd (omega arith)
    length-decimal m (suc f) h k =
        ground (arith, length-append (decimal f (m / 10)) ((b'0' + m % 10) ∷ []), two f (m / 10))
