-- ===== src/PieceManager/Bar.antt =====
-- What the progress thread prints, and when it cannot.
use ufo_torrent.Common.{
  ℕ, zero, suc, ◌+◌, ◌-◌, ◌/◌, ◌%◌, ◌^◌, ◌≤◌, ◌<◌, true, not, ◌∷◌, ◌++◌, Bytes, Option, none, some,
  ltb, leb, ◌==◌, if◌then◌else◌, length, get_elem?, Outcome, ok, throws, undefined, length_error,
  ◌≡◌, refl, ap, ◌∙◌, inl, inr, arith, Bool-cases, le→leb,
}
use ufo_torrent.Common.Int.{pos}
use ufo_torrent.Utils.{format_time}
use ufo_torrent.Utils.Text.{two_digits, format_time_cases}
use ufo_torrent.PieceManager.State.{PieceManager}
use ufo_torrent.PieceManager.Progress.{
  Doubles, bar_from, bar, status_line, display_progress_bar, progress_bar_width,
}

-- The cell at a place of the bar.
abbrev pub cell : ℕ → ℕ → ℕ
cell position i = if ltb i position then b'=' else if i == position then b'>' else b' '

bar_from-cell :
    (position i rounds k : ℕ)
    → k < rounds
    → get_elem? (bar_from position i rounds) k ≡ some (cell position (i + k))
unfolding bar_from
bar_from-cell position i zero k h = absurd (omega arith)
bar_from-cell position i (suc rounds) zero h = let e : i + 0 ≡ i = omega arith in rw e refl
bar_from-cell position i (suc rounds) (suc k) h =
    let e : i + suc k ≡ i + 1 + k = omega arith in
    rw e (bar_from-cell position (i + 1) rounds k (omega arith))

length-bar_from : (position i rounds : ℕ) → length (bar_from position i rounds) ≡ rounds
unfolding bar_from
length-bar_from position i zero = refl
length-bar_from position i (suc rounds) = ap suc (length-bar_from position (i + 1) rounds)

-- The bar has as many cells as it is wide, and each shows on which side of the position it is.
pub bar-cells :
    (position : ℕ)
    → (length (bar position) ≡ progress_bar_width)
      × ((k : ℕ) → k < progress_bar_width → get_elem? (bar position) k ≡ some (cell position k))
unfolding bar
bar-cells position = (
  length-bar_from position 0 progress_bar_width,
  λ k h.
      let e : 0 + k ≡ k = omega arith in rw e at (bar_from-cell position 0 progress_bar_width k h),
)

-- The text of so many seconds, below one hundred hours.
abbrev pub clock : ℕ → Bytes
clock s =
    if ltb s 3600
    then two_digits (s / 60) ++ (b':' ∷ two_digits (s % 60))
    else two_digits (s / 3600)
      ++ (b':' ∷ (two_digits (s % 3600 / 60) ++ (b':' ∷ two_digits (s % 60))))

format_time-clock :
    (s : ℕ) → format_time (pos s) ≡ (if ltb s 360000 then ok (clock s) else throws length_error)
format_time-clock s = format_time_cases s ∙ ground arith

-- The outcome of drawing the bar, from the remaining time, the position and the time since the start,
-- each as far as an integer holds it.
abbrev pub shown : Doubles → PieceManager → Option ℕ → Option ℕ → ℕ → Outcome Bytes
shown doubles m none position passed = undefined
shown doubles m (some eta) position passed =
    if m.pieces_downloaded_in_interval == 0
    then undefined
    else if not (ltb eta 360000)
    then throws length_error
    else if m.total_pieces == 0
    then undefined
    else elim position [
      | none ↦ undefined
      | some place ↦
          if ltb passed 360000
          then ok (status_line doubles m (clock eta) place (clock passed))
          else throws length_error
    ]

-- Drawing the bar is undefined in an interval without a piece, where the remaining time is not
-- finite, for a torrent without pieces, and where an integer does not hold the remaining time or the
-- position; it throws from one hundred hours on, of the remaining time or of the time since the start; and
-- else it prints the line with the two times as a clock shows them.
pub display_progress_bar_cases :
    (doubles : Doubles) (now : ℕ) (m : PieceManager) (eta position : Option ℕ)
    → m.starting_time ≤ now
    → doubles.remaining_time m.pieces_downloaded_in_interval
        ((m.total_pieces + 2 ^ 64 - length m.have_pieces) % 2 ^ 64)
      ≡ eta
    → doubles.position (length m.have_pieces) m.total_pieces ≡ position
    → display_progress_bar doubles now m ≡ shown doubles m eta position (now - m.starting_time)
unfolding display_progress_bar
display_progress_bar_cases doubles now m none position h e f =
    elim (Bool-cases (m.pieces_downloaded_in_interval == 0)) [
      | inl idle ↦ simp (idle) refl
      | inr busy ↦ simp (busy, e) refl
    ]
display_progress_bar_cases doubles now m (some eta) position h e f =
    let started : leb m.starting_time now ≡ true = le→leb _ _ h in
    elim (Bool-cases (m.pieces_downloaded_in_interval == 0)) [
      | inl idle ↦ simp (idle) refl
      | inr busy ↦ elim (Bool-cases (ltb eta 360000)) [
        | inr long ↦ simp (busy, e, format_time-clock, long) refl
        | inl short ↦ elim (Bool-cases (m.total_pieces == 0)) [
          | inl empty ↦ simp (busy, e, format_time-clock, short, empty) refl
          | inr some_pieces ↦
              elim position
                  as (λ p.
                    doubles.position (length m.have_pieces) m.total_pieces ≡ p
                    → display_progress_bar doubles now m
                      ≡ shown doubles m (some eta) p (now - m.starting_time)) [
                        | none ↦ λ f. simp (busy, e, format_time-clock, short, some_pieces, f) refl
                        | some place ↦ λ f. elim (Bool-cases (ltb (now - m.starting_time) 360000)) [
                          | inl recent ↦
                              simp
                                (busy, e, format_time-clock, short, some_pieces, f, started, recent)
                                refl
                          | inr past ↦
                              simp
                                (busy, e, format_time-clock, short, some_pieces, f, started, past)
                                refl
                        ]
                      ]
                f
        ]
      ]
    ]
