-- ===== src/PieceManager/Complete.antt =====
-- A manager that is complete has every piece.
use ufo_torrent.Common.{
  ℕ, zero, suc, ◌+◌, ◌≤◌, ◌<◌, true, false, List, [], ◌∷◌, All, ltb, ◌==◌, if◌then◌else◌, length,
  count, ◌≡◌, refl, ap, ◌∙◌, inl, inr, arith, Bool-cases, ==_iff,
}
use ufo_torrent.Piece.{Piece}
use ufo_torrent.PieceManager.State.{PieceManager, is_complete}
use ufo_torrent.PieceManager.Choice.{indices}
use ufo_torrent.PieceManager.Partition.{IsPartition}

-- The sum of a function over the numbers below a bound.
abbrev sum_below : ℕ → (ℕ → ℕ) → ℕ
sum_below zero f = 0
sum_below (suc n) f = f n + sum_below n f

sum_below-le : (n : ℕ) (f : ℕ → ℕ) → ((i : ℕ) → f i ≤ 1) → sum_below n f ≤ n
sum_below-le zero f small = omega arith
sum_below-le (suc n) f small = omega (arith, small n, sum_below-le n f small)

-- Where no summand is above one and the sum is the bound, each summand is one.
sum_below-full : (n i : ℕ) (f : ℕ → ℕ) → ((i : ℕ) → f i ≤ 1) → sum_below n f ≡ n → i < n → f i ≡ 1
sum_below-full zero i f small h l = absurd (omega arith)
sum_below-full (suc n) i f small h l = elim (Bool-cases (i == n)) [
  | inl last ↦
      let e : i ≡ n = (==_iff i n).0 last in
      rw e (omega (arith, small n, sum_below-le n f small, h))
  | inr before ↦
      sum_below-full n i f small (omega (arith, small n, sum_below-le n f small, h))
        (ground (arith, before))
]

sum_below-add : (n : ℕ) (f g : ℕ → ℕ) → sum_below n (λ i. f i + g i) ≡ sum_below n f + sum_below n g
sum_below-add zero f g = omega arith
sum_below-add (suc n) f g = omega (arith, sum_below-add n f g)

-- One where a number is met.
abbrev mark : ℕ → ℕ → ℕ
mark x i = elim (i == x) [ true ↦ 1 | false ↦ 0 ]

sum_below-mark : (n x : ℕ) → sum_below n (mark x) ≡ (if ltb x n then 1 else 0)
sum_below-mark zero x = ground arith
sum_below-mark (suc n) x = ground (arith, sum_below-mark n x)

sum_below-none : (n : ℕ) → sum_below n (λ i. 0) ≡ 0
sum_below-none zero = refl
sum_below-none (suc n) = omega (arith, sum_below-none n)

sum_below-count :
    (n : ℕ) (xs : List ℕ) → All (λ x. x < n) xs → sum_below n (λ i. count i xs) ≡ length xs
sum_below-count n [] h = sum_below-none n
sum_below-count n (x ∷ xs) h =
    let here : sum_below n (mark x) ≡ 1 = ground (arith, sum_below-mark n x, h.0) in
    omega (arith, here, sum_below-add n (mark x) (λ i. count i xs), sum_below-count n xs h.1)

All-below : (n : ℕ) (xs : List ℕ) → ((i : ℕ) → n ≤ i → count i xs ≡ 0) → All (λ x. x < n) xs
All-below n [] h = tt
All-below n (x ∷ xs) h = (
  elim (Bool-cases (ltb x n)) [
    | inl below ↦ ground (arith, below)
    | inr above ↦ absurd (ground (arith, h x, above))
  ],
  All-below n xs (λ i l. omega (arith, h i l)),
)

length-indices : (ps : List Piece) → length (indices ps) ≡ length ps
length-indices [] = refl
length-indices (p ∷ ps) = ap suc (length-indices ps)

none_counted : (ps : List Piece) → ((i : ℕ) → count i (indices ps) ≡ 0) → ps ≡ []
none_counted [] h = refl
none_counted (p ∷ ps) h = absurd (ground (arith, h p.index))

-- Every piece is downloaded, once, and none is missing or ongoing.
abbrev pub HasAll : PieceManager → Type 0
HasAll m =
    ((i : ℕ) → count i (indices m.have_pieces) ≡ (if ltb i m.total_pieces then 1 else 0))
    × ((m.missing_pieces ≡ []) × (m.ongoing_pieces ≡ []))

pub is_complete-HasAll : (m : PieceManager) → IsPartition m → is_complete m ≡ true → HasAll m
unfolding is_complete
is_complete-HasAll m parts complete =
    let have = indices m.have_pieces in
    let whole : length have ≡ m.total_pieces =
      length-indices m.have_pieces ∙ (==_iff _ _).0 complete in
    let small : (i : ℕ) → count i have ≤ 1 = λ i. ground (arith, parts i) in
    let outside : (i : ℕ) → m.total_pieces ≤ i → count i have ≡ 0 =
      λ i l. ground (arith, parts i) in
    let summed = sum_below-count m.total_pieces have (All-below m.total_pieces have outside) in
    let each : (i : ℕ) → i < m.total_pieces → count i have ≡ 1 =
      λ i l. sum_below-full m.total_pieces i (λ j. count j have) small (summed ∙ whole) l in
    let counts : (i : ℕ) → count i have ≡ (if ltb i m.total_pieces then 1 else 0) = λ i.
      elim (Bool-cases (ltb i m.total_pieces)) [
        | inl inside ↦ rw inside (each i (ground (arith, inside)))
        | inr beyond ↦ rw beyond (outside i (ground (arith, beyond)))
      ] in
    (
      counts,
      (
        none_counted m.missing_pieces (λ i. omega (arith, parts i, counts i)),
        none_counted m.ongoing_pieces (λ i. omega (arith, parts i, counts i)),
      ),
    )
