-- ===== src/PieceManager/Choice.antt =====
-- What the lists of pieces look like after each of the helpers.
use ufo_torrent.Common.{
  ℕ, ◌-◌, ◌^◌, ◌≤◌, Bool, true, false, List, [], ◌∷◌, ◌++◌, All, Bytes, Option, none, some, ltb,
  ◌==◌, if◌then◌else◌, count, Outcome, ok, undefined, ◌≡◌, refl, ap, ◌⊎◌, inl, inr, arith,
  Bool-cases, Option-cases, Returns, Returns-self, Returns-bind,
}
use ufo_torrent.Utils.{has_piece}
use ufo_torrent.Piece
use ufo_torrent.Piece.{Piece, Block}
use ufo_torrent.PieceManager.State.{PieceManager}
use ufo_torrent.PieceManager.Requests.{
  pick_ongoing, next_ongoing, count_piece, count_pieces, least_count, remove_piece, replace_piece,
  get_rarest_piece,
}
use ufo_torrent.PieceManager.Receive.{find_piece}

abbrev pub indices : List Piece → List ℕ
indices [] = []
indices (p ∷ ps) = p.index ∷ indices ps

pub indices-append : (ps qs : List Piece) → indices (ps ++ qs) ≡ indices ps ++ indices qs
indices-append [] qs = refl
indices-append (p ∷ ps) qs = ap (◌∷◌ p.index) (indices-append ps qs)

pub indices-replace_piece :
    (p : Piece) (qs : List Piece) → indices (replace_piece p qs) ≡ indices qs
unfolding replace_piece
indices-replace_piece p [] = refl
indices-replace_piece p (q ∷ qs) = ground (arith, indices-replace_piece p qs)

pub count-remove_piece :
    (i k : ℕ) (ps : List Piece)
    → count i (indices (remove_piece k ps)) ≡ (if i == k then 0 else count i (indices ps))
unfolding remove_piece
count-remove_piece i k [] = ground arith
count-remove_piece i k (p ∷ ps) = ground (arith, count-remove_piece i k ps)

pub next_request-index :
    (p : Piece) {b : Block} {p' : Piece} → Piece.next_request p ≡ some (b, p') → p'.index ≡ p.index
unfolding Piece.next_request
next_request-index p h = ground arith

-- The induction over the loop of `nextOngoing`.
module _ (P : List Piece → Option Block × List Piece → Type 0) (nothing : P [] (none, []))
    (skip : (p : Piece) (ps : List Piece) (r : Option Block × List Piece)
      → P ps r
      → P (p ∷ ps) (r.0, p ∷ r.1))
    (bits : Bytes)
    (pick : (p : Piece) (ps : List Piece) (b : Block) (p' : Piece)
      → has_piece bits p.index ≡ ok true
      → Piece.next_request p ≡ some (b, p')
      → P (p ∷ ps) (some b, p' ∷ ps)) where
  pick_ongoing_cases :
      (has : Bool) (p : Piece) (ps : List Piece) (rest : Outcome (Option Block × List Piece))
      → has_piece bits p.index ≡ ok has
      → Returns (P (p ∷ ps)) rest
      → Returns (P (p ∷ ps)) (pick_ongoing has p ps rest)
  unfolding pick_ongoing
  pick_ongoing_cases false p ps rest e h = h
  pick_ongoing_cases true p ps rest e h = elim (Option-cases (Piece.next_request p)) [
    | inl full ↦ rw (full, pick_ongoing) h
    | inr ((b, p'), found) ↦ rw (found, pick_ongoing) (pick p ps b p' e found)
  ]

  pub next_ongoing_induction : (ps : List Piece) → Returns (P ps) (next_ongoing bits ps)
  unfolding next_ongoing
  next_ongoing_induction [] = nothing
  next_ongoing_induction (p ∷ ps) =
      Returns-bind (λ has. has_piece bits p.index ≡ ok has) (P (p ∷ ps)) (has_piece bits p.index) _
        (Returns-self (has_piece bits p.index))
        λ has e. pick_ongoing_cases has p ps _ e (
          Returns-bind (P ps) (P (p ∷ ps)) (next_ongoing bits ps) _ (next_ongoing_induction ps)
            (λ r h. skip p ps r h))

pub indices-next_ongoing :
    (bits : Bytes) (ps : List Piece)
    → Returns (λ (r : Option Block × List Piece). indices r.1 ≡ indices ps) (next_ongoing bits ps)
indices-next_ongoing bits ps =
    next_ongoing_induction (λ ps r. indices r.1 ≡ indices ps) refl (λ p ps r h. ap (◌∷◌ p.index) h)
      bits (λ p ps b p' has found. ap (λ i. i ∷ indices ps) (next_request-index p found)) ps

pub find_piece-index :
    (i : ℕ) (ps : List Piece) {p : Piece}
    → find_piece i ps ≡ some p
    → (p.index ≡ i) × (1 ≤ count i (indices ps))
unfolding find_piece
find_piece-index i [] h = cc
find_piece-index i (q ∷ qs) {p} h = ground (arith, find_piece-index i qs {p = p})

-- The piece stands in the list.
abbrev pub Among : Piece → List Piece → Type 0
Among p [] = ⊥
Among p (q ∷ qs) = (p ≡ q) ⊎ Among p qs

All-imp : (P Q : Piece → Type 0) (ps : List Piece) → ((p : Piece) → P p → Q p) → All P ps → All Q ps
All-imp P Q [] f h = tt
All-imp P Q (p ∷ ps) f h = (f p h.0, All-imp P Q ps f h.1)

All-Among : (ps : List Piece) → All (λ p. Among p ps) ps
All-Among [] = tt
All-Among (p ∷ ps) =
    (inl refl, All-imp (λ q. Among q ps) (λ q. Among q (p ∷ ps)) ps (λ q h. inr h) (All-Among ps))

pub Among-count : (p : Piece) (ps : List Piece) → Among p ps → 1 ≤ count p.index (indices ps)
Among-count p [] h = absurd h
Among-count p (q ∷ qs) (inl e) = ground (arith, ap (λ (r : Piece). r.index) e)
Among-count p (q ∷ qs) (inr h) = omega (arith, Among-count p qs h)

abbrev pub OptionAll : (Piece → Type 0) → Option Piece → Type 0
OptionAll Q none = Unit
OptionAll Q (some p) = Q p

module _ (Q : Piece → Type 0) where
  count_piece-All :
      (p : Piece) (cs : List (Piece × ℕ))
      → Q p
      → All (λ e. Q e.0) cs
      → All (λ e. Q e.0) (count_piece p cs)
  unfolding count_piece
  count_piece-All p [] q h = (q, tt)
  count_piece-All p ((r, n) ∷ rest) q h = elim (Bool-cases (p.index == r.index)) [
    | inl same ↦ rw same h
    | inr other ↦ rw other (elim (Bool-cases (ltb p.index r.index)) [
      | inl before ↦ rw before (q, h)
      | inr after ↦ rw after (h.0, count_piece-All p rest q h.1)
    ])
  ]

  count_pieces-All :
      (bits : Bytes) (ps : List Piece) (cs : List (Piece × ℕ))
      → All (λ p. has_piece bits p.index ≡ ok true → Q p) ps
      → All (λ e. Q e.0) cs
      → Returns (All (λ e. Q e.0)) (count_pieces bits ps cs)
  unfolding count_pieces
  count_pieces-All bits [] cs hs h = h
  count_pieces-All bits (p ∷ ps) cs hs h =
      Returns-bind (λ has. has_piece bits p.index ≡ ok has) (All (λ e. Q e.0))
        (has_piece bits p.index) _ (Returns-self (has_piece bits p.index))
        λ has.
          elim has
            as (λ b.
              has_piece bits p.index ≡ ok b
              → Returns (All (λ e. Q e.0))
                  (count_pieces bits ps (if b then count_piece p cs else cs))) [
                    | true ↦ λ e.
                        count_pieces-All bits ps (count_piece p cs) hs.1
                          (count_piece-All p cs (hs.0 e) h)
                    | false ↦ λ e. count_pieces-All bits ps cs hs.1 h
                  ]

  least_count-OptionAll :
      (rarest : Option Piece) (least : ℕ) (cs : List (Piece × ℕ))
      → OptionAll Q rarest
      → All (λ e. Q e.0) cs
      → OptionAll Q (least_count rarest least cs)
  unfolding least_count
  least_count-OptionAll rarest least [] q h = q
  least_count-OptionAll rarest least ((p, n) ∷ rest) q h = elim (Bool-cases (ltb n least)) [
    | inl less ↦ rw less (least_count-OptionAll (some p) n rest h.0 h.1)
    | inr more ↦ rw more (least_count-OptionAll rarest least rest q h.1)
  ]

-- What `getRarestPiece` returns: a missing piece that the peer has, gone from the missing ones and last among the ongoing ones.
pub record IsChoice (bits : Bytes) (m : PieceManager) (r : Piece × PieceManager) : Type 0 where
  pub has : has_piece bits r.0.index ≡ ok true
  pub was_missing : Among r.0 m.missing_pieces
  pub moved : r.1 ≡ record m {
    missing_pieces = remove_piece r.0.index m.missing_pieces;
    ongoing_pieces = m.ongoing_pieces ++ (r.0 ∷ []);
  }

abbrev Candidate : Bytes → PieceManager → Piece → Type 0
Candidate bits m p = (has_piece bits p.index ≡ ok true) × Among p m.missing_pieces

choose_cases :
    (bits : Bytes) (m : PieceManager) (o : Option Piece)
    → OptionAll (Candidate bits m) o
    → Returns (IsChoice bits m) (elim o [
      | none ↦ undefined
      | some p ↦ ok (
        p,
        record m {
          missing_pieces = remove_piece p.index m.missing_pieces;
          ongoing_pieces = m.ongoing_pieces ++ (p ∷ []);
        },
      )
    ])
choose_cases bits m none h = tt
choose_cases bits m (some p) h = record { has = h.0; was_missing = h.1; moved = refl }

pub get_rarest_piece-IsChoice :
    (bits : Bytes) (m : PieceManager) → Returns (IsChoice bits m) (get_rarest_piece bits m)
unfolding get_rarest_piece
get_rarest_piece-IsChoice bits m =
    Returns-bind (All (λ e. Candidate bits m e.0)) (IsChoice bits m)
      (count_pieces bits m.missing_pieces []) _
      (count_pieces-All (Candidate bits m) bits m.missing_pieces []
        (All-imp (λ p. Among p m.missing_pieces)
          (λ p. has_piece bits p.index ≡ ok true → Candidate bits m p) m.missing_pieces
          (λ p h e. (e, h)) (All-Among m.missing_pieces))
        tt)
      λ cs h.
        choose_cases bits m (least_count none (2 ^ 15 - 1) cs)
          (least_count-OptionAll (Candidate bits m) none (2 ^ 15 - 1) cs tt h)
