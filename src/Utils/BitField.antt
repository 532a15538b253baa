-- ===== src/Utils/BitField.antt =====
-- `hasPiece` and `setPiece` as reads and writes of a set of piece indices.
use ufo_torrent.Common.{
  ℕ, zero, suc, ◌-◌, ◌/◌, ◌%◌, ◌^◌, ◌<◌, ◌≤◌, true, not, List, [], ◌∷◌, Bytes, IsByte, none, some,
  length, get_elem?, set, All, ◌==◌, if◌then◌else◌, ok, ◌≡◌, arith, inl, inr, length-set,
  Option-cases,
}
use Prim.Native.Nat.{bit_or}
use ufo_torrent.Common.Bits.{bit, bit-bit_or}
use ufo_torrent.Utils.{has_piece, set_piece}

get_elem?-set :
    {A : Type 0} (xs : List A) (i j : ℕ) (v b : A)
    → get_elem? xs i ≡ some b
    → get_elem? (set xs i v) j ≡ (if i == j then some v else get_elem? xs j)
get_elem?-set [] i j v b h = cc
get_elem?-set (x ∷ xs) zero zero v b h = ground arith
get_elem?-set (x ∷ xs) zero (suc j) v b h = ground arith
get_elem?-set (x ∷ xs) (suc i) zero v b h = ground arith
get_elem?-set (x ∷ xs) (suc i) (suc j) v b h = ground (arith, get_elem?-set xs i j v b h)

get_elem?-IsByte : (xs : Bytes) (i : ℕ) {b : ℕ} → All IsByte xs → get_elem? xs i ≡ some b → b < 256
get_elem?-IsByte [] i h e = cc
get_elem?-IsByte (x ∷ xs) zero h e = ground arith
get_elem?-IsByte (x ∷ xs) (suc i) h e = get_elem?-IsByte xs i h.1 e

some-lt : {A : Type 0} (xs : List A) (i : ℕ) → get_elem? xs i ≡ none → length xs ≤ i
some-lt [] i e = omega arith
some-lt (x ∷ xs) zero e = cc
some-lt (x ∷ xs) (suc i) e = omega (arith, some-lt xs i e)

-- The two writes of one byte and the read of one of its bits.
bit_test :
    (b i j : ℕ)
    → b < 256
    → i / 8 ≡ j / 8
    → not (bit (bit_or b (2 ^ (7 - i % 8))) (7 - j % 8) == 0)
      ≡ (if i == j then true else not (bit b (7 - j % 8) == 0))
bit_test b i j h e =
    ground (arith, bit-bit_or b (7 - i % 8) (7 - j % 8) h (omega arith) (omega arith))

set_byte :
    (bf : Bytes) (i j b : ℕ)
    → All IsByte bf
    → get_elem? bf (i / 8) ≡ some b
    → has_piece (set bf (i / 8) (bit_or b (2 ^ (7 - i % 8)))) j
      ≡ (if i == j then ok true else has_piece bf j)
unfolding has_piece
set_byte bf i j b h e = ground (
  arith,
  get_elem?-set bf (i / 8) (j / 8) (bit_or b (2 ^ (7 - i % 8))) b e,
  length-set bf (i / 8) (bit_or b (2 ^ (7 - i % 8))),
  bit_test b i j (get_elem?-IsByte bf (i / 8) h e),
)

-- After a successful `setPiece` the bit field has the piece set, and every other index reads as before, an index past the end included.
pub has_piece-set_piece :
    (bf bf' : Bytes) (i j : ℕ)
    → All IsByte bf
    → set_piece bf i ≡ ok bf'
    → has_piece bf' j ≡ (if i == j then ok true else has_piece bf j)
unfolding set_piece
has_piece-set_piece bf bf' i j h e = elim (Option-cases (get_elem? bf (i / 8))) [
  | inl no_byte ↦ absurd (ground (arith, no_byte, e))
  | inr (b, byte) ↦ ground (arith, set_byte bf i j b h byte, e)
]

-- `setPiece` is defined exactly at the indices that lie in the string.
pub set_piece_defined :
    (bf : Bytes) (i : ℕ)
    → i / 8 < length bf
    → (bf' : Bytes) × (set_piece bf i ≡ ok bf') × (length bf' ≡ length bf)
unfolding set_piece
set_piece_defined bf i h = elim (Option-cases (get_elem? bf (i / 8))) [
  | inl no_byte ↦ absurd (omega (arith, some-lt bf (i / 8) no_byte))
  | inr (b, byte) ↦
      (set bf (i / 8) (bit_or b (2 ^ (7 - i % 8))), rw (byte, set_piece), length-set bf (i / 8) _)
]
