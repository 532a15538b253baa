-- ===== src/Terminal/Status/Drawn.antt =====
-- What the two windows of the program show.
use ufo_torrent.Common.{
  ℕ, zero, suc, ◌+◌, ◌-◌, ◌<◌, min, false, ◌&&◌, List, [], ◌∷◌, some, leb, ◌==◌, length, get_elem?,
  ◌≡◌, refl, ap, inl, inr, arith, Bool-cases, leb→le,
}
use ufo_torrent.Terminal.Menu.{WindowState}
use ufo_torrent.Terminal.Status.{TorrentStatus, Floats, TorrentRow, right_rows, rate_suffix, cut}

module _ {Progress : Type 0} (floats : Floats Progress) (columns height : ℕ) (w : WindowState) where
  -- The row of the torrent of an index.
  abbrev pub torrent_row : ℕ → ℕ → TorrentStatus Progress → TorrentRow
  torrent_row y i t = record {
    row = record { y = y; text = cut columns 30 t.name; reversed = w.active && i == w.selected };
    blocks = min (floats.blocks t.progress) 10;
    suffix = rate_suffix floats t;
  }

  length-right_rows :
      (row i : ℕ) (torrents : List (TorrentStatus Progress))
      → length (right_rows floats columns height w row i torrents)
        ≡ min (length torrents) (height - (row + 2))
  unfolding right_rows
  length-right_rows row i [] = omega arith
  length-right_rows row i (t ∷ torrents) = elim (Bool-cases (leb height (row + 2))) [
    | inl full ↦ rw full (omega (arith, leb→le _ _ full))
    | inr room ↦ rw room (ground (arith, room, length-right_rows (row + 1) (i + 1) torrents))
  ]

  right_rows-get_elem? :
      (row i k y j : ℕ) (torrents : List (TorrentStatus Progress)) (t : TorrentStatus Progress)
      → row + k ≡ y
      → i + k ≡ j
      → y + 2 < height
      → get_elem? torrents k ≡ some t
      → get_elem? (right_rows floats columns height w row i torrents) k ≡ some (torrent_row y j t)
  unfolding right_rows
  right_rows-get_elem? row i k y j [] t e u h at = cc
  right_rows-get_elem? row i zero y j (s ∷ torrents) t e u h at =
      let room : leb height (row + 2) ≡ false = ground arith in
      let same : s ≡ t = cc in
      let y_same : row ≡ y = omega arith in
      let j_same : i ≡ j = omega arith in rw room (ap some (rw (y_same, j_same, same) refl))
  right_rows-get_elem? row i (suc k) y j (s ∷ torrents) t e u h at =
      let room : leb height (row + 2) ≡ false = ground arith in
      rw room
        (right_rows-get_elem? (row + 1) (i + 1) k y j torrents t (omega arith) (omega arith) h at)

  -- The window of the torrents has a row for each torrent, from the fourth line on, as far as there is room
  -- above the frame; each shows its torrent, in reverse where the window is active and it is selected.
  pub right_rows-drawn :
      (torrents : List (TorrentStatus Progress))
      → (length (right_rows floats columns height w 3 0 torrents)
          ≡ min (length torrents) (height - 5))
        × ((k : ℕ) (t : TorrentStatus Progress)
            → k + 5 < height
            → get_elem? torrents k ≡ some t
            → get_elem? (right_rows floats columns height w 3 0 torrents) k
              ≡ some (torrent_row (k + 3) k t))
  right_rows-drawn torrents = (
    length-right_rows 3 0 torrents,
    λ k t h at.
        right_rows-get_elem? 3 0 k (k + 3) k torrents t (omega arith) (omega arith) (omega arith)
          at,
  )
