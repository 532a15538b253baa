-- ===== src/Common/Bits.antt =====
-- Setting one bit of a byte, checked over all bytes and bits.
use Prim.Native.Nat.{ℕ, zero, suc, ◌/◌, ◌%◌, ◌^◌, ◌<◌, bit_or}
use mathlib.Core.Path.{◌≡◌, refl}
use mathlib.Core.Bool.{Bool, true, ◌&&◌}
use native.Mathlib.Omega.{arith}
use ufo_torrent.Common.Tests.{◌==◌, ==_iff, if◌then◌else◌}

-- Bit `k` of `n`.
abbrev pub bit : ℕ → ℕ → ℕ
bit n k = n / 2 ^ k % 2

-- The test passes at every number below the bound.
unfoldable pub below : ℕ → (ℕ → Bool) → Bool
below zero p = true
below (suc n) p = p n && below n p

pub below-lt : (n : ℕ) (p : ℕ → Bool) (x : ℕ) → below n p ≡ true → x < n → p x ≡ true
unfolding below
below-lt zero p x h lt = absurd (omega arith)
below-lt (suc n) p x h lt = ground (arith, below-lt n p x)

abbrev sets_bit : ℕ → ℕ → ℕ → Bool
sets_bit b k m = bit (bit_or b (2 ^ k)) m == (if k == m then 1 else bit b m)

sets_bit_table : below 256 (λ b. below 8 (λ k. below 8 (λ m. sets_bit b k m))) ≡ true
unfolding below
sets_bit_table = refl

pub bit-bit_or :
    (b k m : ℕ)
    → b < 256
    → k < 8
    → m < 8
    → bit (bit_or b (2 ^ k)) m ≡ (if k == m then 1 else bit b m)
bit-bit_or b k m hb hk hm = (==_iff _ _).0 (
    below-lt 8 (λ m. sets_bit b k m) m
      (below-lt 8 (λ k. below 8 (λ m. sets_bit b k m)) k
        (below-lt 256 (λ b. below 8 (λ k. below 8 (λ m. sets_bit b k m))) b sets_bit_table hb) hk)
      hm)
