-- ===== src/PieceManager/Rarest.antt =====
-- Which piece `getRarestPiece` takes.
use ufo_torrent.Common.{
  ℕ, ◌-◌, ◌^◌, ◌≤◌, true, false, List, [], ◌∷◌, ◌++◌, All, Bytes, none, some, ltb, ◌==◌,
  if◌then◌else◌, count, ok, undefined, ◌≡◌, refl, ◌≢◌, inl, inr, arith, Bool-cases, Returns,
  Returns-self, Returns-bind, Returns-imp, Returns-both,
}
use ufo_torrent.Utils.{has_piece}
use ufo_torrent.Piece.{Piece}
use ufo_torrent.PieceManager.State.{PieceManager}
use ufo_torrent.PieceManager.Requests.{
  count_piece, count_pieces, least_count, get_rarest_piece, remove_piece,
}
use ufo_torrent.PieceManager.Choice.{indices, IsChoice, get_rarest_piece-IsChoice}

-- Each piece of the table is counted once.
abbrev Ones : List (Piece × ℕ) → Type 0
Ones [] = Unit {0}
Ones ((p, n) ∷ rest) = (n ≡ 1) × Ones rest

-- No piece of the table has the index `i`.
abbrev Lacks : ℕ → List (Piece × ℕ) → Type 0
Lacks i [] = Unit {0}
Lacks i ((p, n) ∷ rest) = (p.index ≢ i) × Lacks i rest

-- The table begins with a piece whose index is at most `i`.
abbrev HeadLe : List (Piece × ℕ) → ℕ → Type 0
HeadLe [] i = ⊥
HeadLe ((p, n) ∷ rest) i = p.index ≤ i

Ones-count_piece :
    (p : Piece) (cs : List (Piece × ℕ)) → Lacks p.index cs → Ones cs → Ones (count_piece p cs)
unfolding count_piece
Ones-count_piece p [] l o = (refl, tt)
Ones-count_piece p ((q, n) ∷ rest) l o = elim (Bool-cases (p.index == q.index)) [
  | inl same ↦ absurd (l.0 (ground (arith, same)))
  | inr other ↦ rw other (elim (Bool-cases (ltb p.index q.index)) [
    | inl before ↦ rw before (refl, o)
    | inr after ↦ rw after (o.0, Ones-count_piece p rest l.1 o.1)
  ])
]

Lacks-count_piece :
    (i : ℕ) (p : Piece) (cs : List (Piece × ℕ))
    → p.index ≢ i
    → Lacks i cs
    → Lacks i (count_piece p cs)
unfolding count_piece
Lacks-count_piece i p [] h l = (h, tt)
Lacks-count_piece i p ((q, n) ∷ rest) h l = elim (Bool-cases (p.index == q.index)) [
  | inl same ↦ rw same l
  | inr other ↦ rw other (elim (Bool-cases (ltb p.index q.index)) [
    | inl before ↦ rw before (h, l)
    | inr after ↦ rw after (l.0, Lacks-count_piece i p rest h l.1)
  ])
]

HeadLe-count_piece :
    (i : ℕ) (p : Piece) (cs : List (Piece × ℕ))
    → HeadLe (count_piece p cs) p.index × (HeadLe cs i → HeadLe (count_piece p cs) i)
unfolding count_piece
HeadLe-count_piece i p [] = (omega arith, λ h. absurd h)
HeadLe-count_piece i p ((q, n) ∷ rest) = elim (Bool-cases (p.index == q.index)) [
  | inl same ↦ rw same (ground (arith, same), λ h. h)
  | inr other ↦ rw other (elim (Bool-cases (ltb p.index q.index)) [
    | inl before ↦ rw before (omega arith, λ h. ground (arith, before, h))
    | inr after ↦ rw after (ground (arith, other, after), λ h. h)
  ])
]

-- No two pieces of the list have one index, and none has an index of the table.
abbrev Fresh : List Piece → List (Piece × ℕ) → Type 0
Fresh [] cs = Unit {0}
Fresh (p ∷ ps) cs = Lacks p.index cs × All (λ q. p.index ≢ q.index) ps × Fresh ps cs

Fresh-count_piece :
    (p : Piece) (ps : List Piece) (cs : List (Piece × ℕ))
    → All (λ q. p.index ≢ q.index) ps
    → Fresh ps cs
    → Fresh ps (count_piece p cs)
Fresh-count_piece p [] cs h f = tt
Fresh-count_piece p (q ∷ qs) cs h f =
    (Lacks-count_piece q.index p cs h.0 f.0, f.1, Fresh-count_piece p qs cs h.1 f.2)

-- What the table promises about the pieces that were counted.
abbrev Leads : List Piece → Bytes → List (Piece × ℕ) → Type 0
Leads ps bits cs = All (λ q. has_piece bits q.index ≡ ok true → HeadLe cs q.index) ps

-- The table after the pieces `ps` were counted into the table `before`.
abbrev IsTable : Bytes → List Piece → List (Piece × ℕ) → List (Piece × ℕ) → Type 0
IsTable bits ps before after =
    Ones after × Leads ps bits after × ((i : ℕ) → HeadLe before i → HeadLe after i)

count_pieces-IsTable :
    (bits : Bytes) (ps : List Piece) (cs : List (Piece × ℕ))
    → Fresh ps cs
    → Ones cs
    → Returns (IsTable bits ps cs) (count_pieces bits ps cs)
unfolding count_pieces
count_pieces-IsTable bits [] cs f o = (o, tt, λ i h. h)
count_pieces-IsTable bits (p ∷ ps) cs f o =
    Returns-bind (λ has. has_piece bits p.index ≡ ok has) (IsTable bits (p ∷ ps) cs)
      (has_piece bits p.index) _ (Returns-self (has_piece bits p.index))
      λ has.
        elim has
          as (λ b.
            has_piece bits p.index ≡ ok b
            → Returns (IsTable bits (p ∷ ps) cs)
                (count_pieces bits ps (if b then count_piece p cs else cs))) [
                  | true ↦ λ e.
                      Returns-imp (IsTable bits ps (count_piece p cs)) (IsTable bits (p ∷ ps) cs)
                        (count_pieces bits ps (count_piece p cs))
                        (count_pieces-IsTable bits ps (count_piece p cs)
                          (Fresh-count_piece p ps cs f.1 f.2) (Ones-count_piece p cs f.0 o))
                        (λ after h. (
                          h.0,
                          (λ _. h.2 p.index (HeadLe-count_piece 0 p cs).0, h.1),
                          λ i k. h.2 i ((HeadLe-count_piece i p cs).1 k),
                        ))
                  | false ↦ λ e.
                      Returns-imp (IsTable bits ps cs) (IsTable bits (p ∷ ps) cs)
                        (count_pieces bits ps cs) (count_pieces-IsTable bits ps cs f.2 o)
                        (λ after h. (h.0, (λ e'. absurd (cc), h.1), h.2))
                ]

least_count-Ones :
    (p : Piece) (cs : List (Piece × ℕ)) → Ones cs → least_count (some p) 1 cs ≡ some p
unfolding least_count
least_count-Ones p [] o = refl
least_count-Ones p ((q, n) ∷ rest) o =
    let no_less : ltb n 1 ≡ false = ground (arith, o.0) in rw no_less (least_count-Ones p rest o.1)

-- No piece of the list that the bit field has is of a lower index.
abbrev IsBelow : Bytes → List Piece → Piece → Type 0
IsBelow bits ps p = All (λ q. has_piece bits q.index ≡ ok true → p.index ≤ q.index) ps

Fresh-distinct : (ps : List Piece) → ((i : ℕ) → count i (indices ps) ≤ 1) → Fresh ps []
Fresh-distinct [] d = tt
Fresh-distinct (p ∷ ps) d = (
  tt,
  others ps (omega (arith, own p ps (d p.index))),
  Fresh-distinct ps (λ i. omega (arith, d i)),
)
  where
    own :
        (p : Piece) (ps : List Piece)
        → count p.index (p.index ∷ indices ps) ≤ 1
        → count p.index (indices ps) ≤ 0
    own p ps h = ground (arith, h)

    others : (qs : List Piece) → count p.index (indices qs) ≤ 0 → All (λ q. p.index ≢ q.index) qs
    others [] h = tt
    others (q ∷ qs) h = ((λ e. absurd (ground (arith, e, h))), others qs (omega (arith, h)))

bounded :
    (bits : Bytes) (m : PieceManager)
    → ((i : ℕ) → count i (indices m.missing_pieces) ≤ 1)
    → Returns
        (λ (r : Piece × PieceManager). IsBelow bits m.missing_pieces r.0)
        (get_rarest_piece bits m)
unfolding get_rarest_piece
bounded bits m d =
    Returns-bind (IsTable bits m.missing_pieces []) (λ r. IsBelow bits m.missing_pieces r.0)
      (count_pieces bits m.missing_pieces []) _
      (count_pieces-IsTable bits m.missing_pieces [] (Fresh-distinct m.missing_pieces d) tt)
      λ cs h. lowest cs h
  where
    lowest :
        (cs : List (Piece × ℕ))
        → IsTable bits m.missing_pieces [] cs
        → Returns
            (λ (r : Piece × PieceManager). IsBelow bits m.missing_pieces r.0)
            (elim (least_count none (2 ^ 15 - 1) cs) [
              | none ↦ undefined
              | some p ↦ ok (
                p,
                record m {
                  missing_pieces = remove_piece p.index m.missing_pieces;
                  ongoing_pieces = m.ongoing_pieces ++ (p ∷ []);
                },
              )
            ])
    lowest [] h = tt
    lowest ((p, n) ∷ rest) h = rw (h.0.0, least_count-Ones p rest h.0.1) h.1

-- The result of the choice: a missing piece that the peer has, moved from the missing to the ongoing pieces, and of the least index of all that are missing and that the peer has.
abbrev pub IsLowest : Bytes → PieceManager → Piece × PieceManager → Type 0
IsLowest bits m r = IsChoice bits m r × IsBelow bits m.missing_pieces r.0

-- Where no piece is missing twice, and whatever the other peers have, `getRarestPiece` takes the missing piece of the least index that this peer has, and moves it to the ongoing ones.
pub get_rarest_piece-IsLowest :
    (bits : Bytes) (m : PieceManager)
    → ((i : ℕ) → count i (indices m.missing_pieces) ≤ 1)
    → Returns (IsLowest bits m) (get_rarest_piece bits m)
get_rarest_piece-IsLowest bits m d =
    Returns-both (IsChoice bits m) (λ r. IsBelow bits m.missing_pieces r.0)
      (get_rarest_piece bits m) (get_rarest_piece-IsChoice bits m) (bounded bits m d)
