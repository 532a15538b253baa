-- ===== src/Parser/Pieces.antt =====
-- The two ways in which the program cuts the hashes of the pieces.
use ufo_torrent.Common.{
  ℕ, zero, suc, ◌+◌, ◌*◌, ◌/◌, ◌%◌, ◌≤◌, ◌<◌, List, [], ◌∷◌, Bytes, Option, ◌==◌, if◌then◌else◌,
  length, take, drop, ok, aborted, ◌≡◌, refl, sym, ap, ◌∙◌, inl, inr, arith, Bool-cases, List-cases,
  length-drop,
}
use ufo_torrent.PieceManager.Setup
use ufo_torrent.PieceManager.Setup.{split_hashes}
use ufo_torrent.Parser.{Library, cut_hashes, split_checked, get_string, split_piece_hashes}
use ufo_torrent.TorrentFile.Key

drop-nil {ℓ} : {A : Type ℓ} (n : ℕ) → drop {A = A} n [] ≡ []
drop-nil zero = refl
drop-nil (suc n) = refl

drop-drop {ℓ} : {A : Type ℓ} (m n : ℕ) (xs : List A) → drop m (drop n xs) ≡ drop (n + m) xs
drop-drop m zero xs = let e : 0 + m ≡ m = omega arith in rw e refl
drop-drop m (suc n) [] = let e : suc n + m ≡ suc (n + m) = omega arith in rw e (drop-nil m)
drop-drop m (suc n) (x ∷ xs) =
    let e : suc n + m ≡ suc (n + m) = omega arith in rw e (drop-drop m n xs)

split_hashes-nil : (fuel : ℕ) → split_hashes fuel [] ≡ []
unfolding split_hashes
split_hashes-nil zero = refl
split_hashes-nil (suc fuel) = refl

split_hashes_step :
    (fuel : ℕ) (bs : Bytes)
    → 0 < length bs
    → length bs ≤ suc fuel
    → split_hashes (suc fuel) bs ≡ take 20 bs ∷ split_hashes fuel (drop 20 bs)
unfolding split_hashes
split_hashes_step fuel [] h k = absurd (omega arith)
split_hashes_step fuel (b ∷ bs) h k = refl

-- From any hash on, the loop over indices cuts what the loop over a stream cuts.
cut_hashes-split_hashes :
    (pieces : Bytes) (i rounds fuel : ℕ)
    → length (drop (i * 20) pieces) ≡ rounds * 20
    → length (drop (i * 20) pieces) ≤ fuel
    → cut_hashes pieces i rounds ≡ split_hashes fuel (drop (i * 20) pieces)
unfolding cut_hashes
cut_hashes-split_hashes pieces i zero fuel h k = elim (List-cases (drop (i * 20) pieces)) [
  | inl none_left ↦ rw none_left (sym (split_hashes-nil fuel))
  | inr (b, bs, e) ↦ absurd (omega (arith, h, ap length e))
]
cut_hashes-split_hashes pieces i (suc rounds) zero h k = absurd (omega (arith, h, k))
cut_hashes-split_hashes pieces i (suc rounds) (suc fuel) h k =
    let next : drop 20 (drop (i * 20) pieces) ≡ drop ((i + 1) * 20) pieces =
      drop-drop 20 (i * 20) pieces
      ∙ (let e : i * 20 + 20 ≡ (i + 1) * 20 = omega arith in ap (λ k. drop k pieces) e) in
    let short = length-drop 20 (drop (i * 20) pieces) in
    let sized = ap length next in
    rw (split_hashes_step fuel (drop (i * 20) pieces) (omega (arith, h)) k, next)
      (ap (◌∷◌ (take 20 (drop (i * 20) pieces))) (
        cut_hashes-split_hashes pieces (i + 1) rounds fuel (omega (arith, h, short, sized))
          (omega (arith, h, k, short, sized))))

split_checked_cases :
    (pieces : Bytes)
    → split_checked pieces
      ≡ (if length pieces % 20 == 0 then ok (Setup.split_piece_hashes pieces) else aborted)
unfolding split_checked Setup.split_piece_hashes
split_checked_cases pieces = elim (Bool-cases (length pieces % 20 == 0)) [
  | inl whole ↦
      let size : length pieces ≡ length pieces / 20 * 20 = ground (arith, whole) in
      rw whole (
        ap ok (
          cut_hashes-split_hashes pieces 0 (length pieces / 20) (length pieces) size (omega arith)))
  | inr part ↦ rw part refl
]

-- Where the torrent file has a string `pieces`: if its size is a whole number of hashes, `splitPieceHashes` of
-- the parser gives the same hashes as that of the piece manager, and for any other size the
-- assertion fails; the piece manager then goes on with a short hash at the end.
pub split_piece_hashes-same :
    {Item Dictionary : Type 0} (library : Library Item Dictionary) (root : Option Dictionary)
    (pieces : Bytes)
    → get_string library root Key.pieces ≡ ok pieces
    → split_piece_hashes library root
      ≡ (if length pieces % 20 == 0 then ok (Setup.split_piece_hashes pieces) else aborted)
unfolding split_piece_hashes
split_piece_hashes-same library root pieces e = rw e (split_checked_cases pieces)
