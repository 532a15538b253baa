-- ===== src/PieceManager/Progress.antt =====
-- `trackProgress` and `displayProgressBar` of src/network_part/PieceManager.cpp. What the program
-- computes with `double` is an interface, of the calls whose result is a number or a text; the
-- conversion of a result that is not finite, or that the integer type does not hold, is undefined.
use ufo_torrent.Common.{
  ℕ, zero, suc, ◌+◌, ◌-◌, ◌*◌, ◌%◌, ◌^◌, List, [], ◌∷◌, ◌++◌, Bytes, Option, none, some, ltb, leb,
  ◌==◌, if◌then◌else◌, length, Outcome, ok, undefined, ◌>>=◌,
}
use ufo_torrent.Common.Decimal.{to_string}
use ufo_torrent.Common.Int.{ℤ, pos, negsuc}
use ufo_torrent.Utils.{format_time}
use ufo_torrent.PieceManager.State.{PieceManager, is_complete}

-- The remaining time from the number of pieces in the interval, which is not zero, and of those that
-- lack, and the position in the bar from the number of pieces that are there, and of all, which is not
-- zero, both none where the integer type does not hold them; the texts of the speed and of the percentage with two digits behind the point.
pub record Doubles : Type 0 where
  pub remaining_time : ℕ → ℕ → Option ℕ
  pub position : ℕ → ℕ → Option ℕ
  pub speed : ℕ → Bytes
  pub percentage : ℕ → ℕ → Bytes

abbrev pub progress_bar_width : ℕ
progress_bar_width = 40

-- The loop that draws the bar from the place `i` on, with `rounds` left.
unfoldable pub bar_from : ℕ → ℕ → ℕ → Bytes
bar_from position i zero = []
bar_from position i (suc rounds) =
    (if ltb i position then b'=' else if i == position then b'>' else b' ')
    ∷ bar_from position (i + 1) rounds

unfoldable pub bar : ℕ → Bytes
unfolding bar_from
bar position = bar_from position 0 progress_bar_width

-- A quotient whose divisor is zero is not finite, and its conversion is undefined, as that of one that
-- the integer type does not hold.
abbrev pub finite : ℕ → Option ℕ → Outcome ℕ
finite divisor n = if divisor == 0 then undefined else elim n [ none ↦ undefined | some i ↦ ok i ]

-- `floor` of the difference of two times.
abbrev pub since : ℕ → ℕ → ℤ
since start now = if leb start now then pos (now - start) else negsuc (start - now - 1)

-- The parts of the stream, one after another.
abbrev texts : List Bytes → Bytes
texts [] = []
texts (part ∷ parts) = part ++ texts parts

-- The line that is printed, with the end of the line where the download is complete.
unfoldable pub status_line : Doubles → PieceManager → Bytes → ℕ → Bytes → Bytes
unfolding bar is_complete
status_line doubles m eta position passed = texts (
    (b'[' ∷ b'P' ∷ b'e' ∷ b'e' ∷ b'r' ∷ b's' ∷ b':' ∷ b' ' ∷ [])
    ∷ to_string (length m.peers)
    ∷ (b'/' ∷ [])
    ∷ to_string m.maximum_connections
    ∷ (b',' ∷ b' ' ∷ [])
    ∷ doubles.speed (m.piece_length * m.pieces_downloaded_in_interval % 2 ^ 64)
    ∷ (b' ' ∷ b'M' ∷ b'B' ∷ b'/' ∷ b's' ∷ b',' ∷ b' ' ∷ b'E' ∷ b'T' ∷ b'A' ∷ b':' ∷ b' ' ∷ [])
    ∷ eta
    ∷ (b']' ∷ b'[' ∷ [])
    ∷ bar position
    ∷ (b']' ∷ b' ' ∷ [])
    ∷ to_string (length m.have_pieces)
    ∷ (b'/' ∷ [])
    ∷ to_string m.total_pieces
    ∷ (b' ' ∷ b'[' ∷ [])
    ∷ doubles.percentage (length m.have_pieces) m.total_pieces
    ∷ (b'%' ∷ b']' ∷ b' ' ∷ b'i' ∷ b'n' ∷ b' ' ∷ [])
    ∷ passed
    ∷ (13 ∷ [])
    ∷ (if is_complete m then 10 ∷ [] else [])
    ∷ [])

-- `displayProgressBar`.
unfoldable pub display_progress_bar : Doubles → ℕ → PieceManager → Outcome Bytes
unfolding format_time status_line
display_progress_bar doubles now m = do
  let downloaded = length m.have_pieces
  let lacking = (m.total_pieces + 2 ^ 64 - downloaded) % 2 ^ 64
  remaining ←
      finite m.pieces_downloaded_in_interval
        (doubles.remaining_time m.pieces_downloaded_in_interval lacking)
  eta ← format_time (pos remaining)
  position ← finite m.total_pieces (doubles.position downloaded m.total_pieces)
  passed ← format_time (since m.starting_time now)
  ok (status_line doubles m eta position passed)

-- The assignment in the loop of `trackProgress`.
unfoldable pub reset_interval : PieceManager → PieceManager
reset_interval m = record m { pieces_downloaded_in_interval = 0 }

-- A round of the loop; `none` where the loop ends. The calls of the other threads stand between the
-- rounds.
unfoldable pub track_round : Doubles → ℕ → PieceManager → Outcome (Option (Bytes × PieceManager))
unfolding is_complete display_progress_bar reset_interval
track_round doubles now m =
    if is_complete m
    then ok none
    else (display_progress_bar doubles now m >>= λ line. ok (some (line, reset_interval m)))
