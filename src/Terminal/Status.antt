-- ===== src/Terminal/Status.antt =====
-- src/main.cpp: a round of `update_progress`, and `renderWindows`. What libtorrent says of its torrents
-- is an argument; a progress is of a type that is a parameter, a `float`, with what is computed from it.
-- Rates and coordinates of a window that is drawn are not negative.
pub mod Drawn
use ufo_torrent.Common.{
  ℕ, ◌+◌, ◌-◌, ◌/◌, min, Bool, ◌&&◌, List, [], ◌∷◌, ◌++◌, Bytes, ltb, leb, ◌==◌, if◌then◌else◌,
  take,
}
use ufo_torrent.Common.Decimal.{to_string}
use ufo_torrent.Terminal.Menu.{WindowState}
use ufo_torrent.Terminal.Window.{Row}

-- The states of libtorrent that the program tells apart.
pub data State : Type 0 where
  downloading_metadata downloading seeding finished other : State

-- `lt::torrent_status`.
pub record Status (Progress : Type 0) : Type 0 where
  pub name : Bytes
  pub progress : Progress
  pub download_rate : ℕ
  pub paused : Bool
  pub state : State

-- A `TorrentStatus`.
pub record TorrentStatus (Progress : Type 0) : Type 0 where
  pub name : Bytes
  pub progress : Progress
  pub download_rate : ℕ
  pub state : Bytes

-- The arithmetic of `float`: the percentage of a progress, the number of blocks of the bar, and
-- whether a percentage is one hundred or more.
pub record Floats (Progress : Type 0) : Type 0 where
  pub percentage : Progress → Progress
  pub blocks : Progress → ℕ
  pub is_whole : Progress → Bool

-- The `switch`.
unfoldable pub state_name : State → Bytes
state_name downloading_metadata = b'M' ∷ b'e' ∷ b't' ∷ b'a' ∷ b'd' ∷ b'a' ∷ b't' ∷ b'a' ∷ []
state_name downloading =
    b'D' ∷ b'o' ∷ b'w' ∷ b'n' ∷ b'l' ∷ b'o' ∷ b'a' ∷ b'd' ∷ b'i' ∷ b'n' ∷ b'g' ∷ []
state_name seeding = b'S' ∷ b'e' ∷ b'e' ∷ b'd' ∷ b'i' ∷ b'n' ∷ b'g' ∷ []
state_name finished = b'F' ∷ b'i' ∷ b'n' ∷ b'i' ∷ b's' ∷ b'h' ∷ b'e' ∷ b'd' ∷ []
state_name other = b'U' ∷ b'n' ∷ b'k' ∷ b'n' ∷ b'o' ∷ b'w' ∷ b'n' ∷ []

-- A row of the window of the torrents: its name, how many of the ten places of the bar are
-- blocks, and what stands behind the bar.
pub record TorrentRow : Type 0 where
  pub row : Row
  pub blocks : ℕ
  pub suffix : Bytes

abbrev pub bar_width : ℕ
bar_width = 10

-- "%.*s", where a precision below zero counts as none.
unfoldable pub cut : ℕ → ℕ → Bytes → Bytes
cut columns margin name = if ltb columns margin then name else take (columns - margin) name

-- The texts of the menu on the left.
abbrev pub left_items : List Bytes
left_items =
    (b'A' ∷ b'd' ∷ b'd' ∷ b' ' ∷ b'T' ∷ b'o' ∷ b'r' ∷ b'r' ∷ b'e' ∷ b'n' ∷ b't' ∷ [])
    ∷ (b'S' ∷ b'e' ∷ b'l' ∷ b'e' ∷ b'c' ∷ b't' ∷ b' ' ∷ b'D' ∷ b'o' ∷ b'w' ∷ b'n' ∷ b'l' ∷ b'o'
        ∷ b'a' ∷ b'd' ∷ b' ' ∷ b'D' ∷ b'i' ∷ b'r' ∷ [])
    ∷ (b'C' ∷ b'r' ∷ b'e' ∷ b'a' ∷ b't' ∷ b'e' ∷ b' ' ∷ b'e' ∷ b'x' ∷ b'a' ∷ b'm' ∷ b'p' ∷ b'l'
        ∷ b'e' ∷ b' ' ∷ b'T' ∷ b'o' ∷ b'r' ∷ b'r' ∷ b'e' ∷ b'n' ∷ b't' ∷ [])
    ∷ (b'E' ∷ b'x' ∷ b'i' ∷ b't' ∷ [])
    ∷ []

-- The loop over the items on the left, from the item `i` on.
unfoldable pub left_rows : ℕ → WindowState → ℕ → List Bytes → List Row
unfolding cut
left_rows columns w i [] = []
left_rows columns w i (item ∷ items) =
    record { y = i + 3; text = cut columns 4 item; reversed = w.active && i == w.selected }
    ∷ left_rows columns w (i + 1) items

module _ {Progress : Type 0} (floats : Floats Progress) where
  -- The body of the loop over the statuses.
  unfoldable pub to_torrent_status : Status Progress → TorrentStatus Progress
  unfolding state_name
  to_torrent_status s = record {
    name = s.name;
    progress = floats.percentage s.progress;
    download_rate = s.download_rate / 1024;
    state = if s.paused then state_name finished else state_name s.state;
  }

  -- A round of `update_progress`: the torrents that are active from now on.
  unfoldable pub update_progress : List (Status Progress) → List (TorrentStatus Progress)
  unfolding to_torrent_status
  update_progress [] = []
  update_progress (s ∷ statuses) = to_torrent_status s ∷ update_progress statuses

  -- The text behind the bar.
  unfoldable pub rate_suffix : TorrentStatus Progress → Bytes
  rate_suffix t =
      if floats.is_whole t.progress
      then b']' ∷ b' ' ∷ b'F' ∷ b'i' ∷ b'n' ∷ b'i' ∷ b's' ∷ b'h' ∷ b'e' ∷ b'd' ∷ []
      else if ltb 1024 t.download_rate
      then (b']' ∷ b' ' ∷ [])
        ++ (to_string (t.download_rate / 1024) ++ (b' ' ∷ b'm' ∷ b'b' ∷ b'/' ∷ b's' ∷ []))
      else (b']' ∷ b' ' ∷ [])
        ++ (to_string t.download_rate ++ (b' ' ∷ b'k' ∷ b'b' ∷ b'/' ∷ b's' ∷ []))

  -- The loop over the torrents, from the row and the index on.
  unfoldable pub right_rows :
      ℕ → ℕ → WindowState → ℕ → ℕ → List (TorrentStatus Progress) → List TorrentRow
  unfolding cut rate_suffix
  right_rows columns height w row i [] = []
  right_rows columns height w row i (t ∷ torrents) =
      let rest = right_rows columns height w (row + 1) (i + 1) torrents in
      if leb height (row + 2)
      then []
      else record {
        row = record {
          y = row;
          text = cut columns 30 t.name;
          reversed = w.active && i == w.selected;
        };
        blocks = min (floats.blocks t.progress) bar_width;
        suffix = rate_suffix t;
      }
        ∷ rest

  -- `renderWindows`, on two windows of these sizes.
  unfoldable pub render_windows :
      ℕ
      → ℕ
      → ℕ
      → WindowState
      → WindowState
      → List (TorrentStatus Progress)
      → List Row × List TorrentRow
  unfolding left_rows right_rows
  render_windows left_columns right_columns height left_win right_win torrents = (
    left_rows left_columns left_win 0 left_items,
    right_rows right_columns height right_win 3 0 torrents,
  )
