-- ===== src/Terminal/Menu.antt =====
-- src/main.cpp: the loop of `main` over its two windows. What the user presses is a list of presses;
-- one of Enter carries the keys that are pressed in the dialogs that it opens. The session is the list
-- of the torrents that were handed to libtorrent, with the directory that each is saved in; what
-- libtorrent says to one, and whether the disk takes a file, are arguments. No exception is caught
-- here, so that one ends the program.
use ufo_torrent.Common.{
  ℕ, ◌+◌, ◌-◌, ◌%◌, Bool, true, false, List, [], ◌∷◌, ◌++◌, Bytes, none, some, ◌==◌, if◌then◌else◌,
  length, is_empty, get_elem?, Outcome, ok, undefined, ◌>>=◌,
}
use ufo_torrent.Bencode.{encode}
use ufo_torrent.TorrentFile.{TorrentFile}
use ufo_torrent.TorrentFile.Print.{to_value}
use ufo_torrent.TorrentFile.Create.{create_torrent_file}
use ufo_torrent.Files.{Disk, create_file}
use ufo_torrent.Files.Path.{join}
use ufo_torrent.Files.System.{FileSystem, asked}
use ufo_torrent.Terminal.Dialog.{Key, Dialog, Next, stays, returns, torrent_extension, file_dialog}

-- A `WindowState`.
pub record WindowState : Type 0 where
  pub selected : ℕ
  pub active : Bool
  pub items : List Bytes

pub data Press : Type 0 where
  key_f1 key_down key_up key_left key_right other_press timeout : Press
  key_enter : List Key → List Key → Press

-- The variables of the program that the loop reads and writes.
pub record Menu : Type 0 where
  pub left_win : WindowState
  pub right_win : WindowState
  pub selected_torrents : List Bytes
  pub down_dir : Bytes
  pub session : List (Bytes × Bytes)
  pub disk : Disk

-- Where the loop stands: it goes on, waits in a dialog, or has left for the clean-up.
pub data Stage : Type 0 where
  at : Menu → Stage
  in_dialog : Dialog → Stage
  left_loop : Menu → Stage

-- The number of `left_items`.
abbrev pub left_size : ℕ
left_size = 4

-- "example.torrent" and "exemple".
abbrev example_name : Bytes
example_name = b'e' ∷ b'x' ∷ b'a' ∷ b'm' ∷ b'p' ∷ b'l' ∷ b'e' ∷ torrent_extension

abbrev pub exemple : Bytes
exemple = b'e' ∷ b'x' ∷ b'e' ∷ b'm' ∷ b'p' ∷ b'l' ∷ b'e' ∷ []

-- "Tester".
abbrev pub tester : Bytes
tester = b'T' ∷ b'e' ∷ b's' ∷ b't' ∷ b'e' ∷ b'r' ∷ []

-- The windows as `main` sets them up.
abbrev pub start_menu : Disk → Menu
start_menu disk = record {
  left_win = record { selected = 0; active = true; items = [] };
  right_win = record { selected = 0; active = false; items = [] };
  selected_torrents = [];
  down_dir = b'.' ∷ [];
  session = [];
  disk = disk;
}

abbrev pub select_left : ℕ → Menu → Menu
select_left i m = record m { left_win = record m.left_win { selected = i } }

abbrev pub select_right : ℕ → Menu → Menu
select_right i m = record m { right_win = record m.right_win { selected = i } }

-- KEY_RIGHT in the left window.
unfoldable pub to_right : Menu → Menu
to_right m = if is_empty m.selected_torrents then m else record m {
  left_win = record m.left_win { active = false };
  right_win = record m.right_win { active = true; selected = 0 };
}

-- KEY_LEFT in the right window.
unfoldable pub to_left : Menu → Menu
to_left m = record m {
  left_win = record m.left_win { active = true };
  right_win = record m.right_win { active = false };
}

-- The `switch` of the right window.
unfoldable pub press_right : Press → Menu → Outcome Stage
unfolding to_left
press_right key_left m = ok (at (to_left m))
press_right key_down m = ok (
    at (
      if is_empty m.right_win.items
      then m
      else select_right ((m.right_win.selected + 1) % length m.right_win.items) m))
press_right key_up m = ok (
    at (
      if is_empty m.right_win.items
      then m
      else select_right
          ((m.right_win.selected + length m.right_win.items - 1) % length m.right_win.items) m))
press_right (key_enter first second) m =
    if is_empty m.right_win.items
    then ok (at m)
    else elim (get_elem? m.selected_torrents m.right_win.selected) [
      | none ↦ undefined
      | some name ↦ ok (at m)
    ]
press_right press m = ok (at m)

-- What is done with the path that a dialog gives.
abbrev pub with_path : Next → (Bytes → Outcome Stage) → Outcome Stage
with_path (stays d) f = ok (in_dialog d)
with_path (returns path) f = f path
with_path Next.undefined f = undefined

module _ (fs : FileSystem) (sha1 : Bytes → Bytes) (current_path : Bytes) (accepts : Bytes → Bool)
    (takes : Bytes → Bytes → Outcome (Unit {0})) (opens writes : Bytes → Bool) where
  -- The dialog for a torrent file, and that for a directory.
  abbrev pub file_path : List Key → Next
  file_path = file_dialog fs false accepts current_path (b'.' ∷ [])

  abbrev pub dir_path : List Key → Next
  dir_path = file_dialog fs true accepts current_path (b'.' ∷ [])

  -- "Add Torrent", on the path that the dialog gives.
  unfoldable pub add_torrent : Menu → Bytes → Outcome Stage
  add_torrent m path =
      if is_empty path
      then ok (at m)
      else (takes path m.down_dir >>= λ done.
          ok (at (record m { session = m.session ++ ((path, m.down_dir) ∷ []) })))

  -- The path of the torrent file that is written.
  unfoldable pub out_file : Bytes → Outcome Bytes
  unfolding join
  out_file path = asked (fs.is_directory path) >>= λ is_dir.
      ok (if is_dir then join path example_name else path)

  -- The writing of the torrent file, on the path that the second dialog gives.
  unfoldable pub write_example : Menu → TorrentFile → Bytes → Outcome Stage
  unfolding out_file encode to_value create_file
  write_example m torrent path =
      if is_empty path
      then ok (at m)
      else (out_file path >>= λ out. to_value torrent >>= λ v. encode v >>= λ content.
          let (disk, done) = create_file (opens out) (writes out) out content m.disk in
          done >>= λ u. ok (at (record m { disk = disk })))

  -- "Create example Torrent", on the path that the first dialog gives.
  unfoldable pub create_example : Menu → List Key → Bytes → Outcome Stage
  unfolding write_example create_torrent_file file_dialog
  create_example m second path =
      if is_empty path
      then ok (at m)
      else (create_torrent_file fs sha1 m.disk exemple ((exemple ∷ []) ∷ []) tester path none none
          >>= λ torrent. with_path (dir_path second) (write_example m torrent))

  -- Enter in the left window.
  unfoldable pub choose_item : List Key → List Key → Menu → Outcome Stage
  unfolding add_torrent create_example file_dialog
  choose_item first second m =
      if m.left_win.selected == 0
      then with_path (file_path first) (add_torrent m)
      else if m.left_win.selected == 1
      then with_path (dir_path first) (λ path. ok (at (record m { down_dir = path })))
      else if m.left_win.selected == 2
      then with_path (dir_path first) (create_example m second)
      else if m.left_win.selected == 3
      then ok (left_loop m)
      else ok (at m)

  -- The `switch` of the left window.
  unfoldable pub press_left : Press → Menu → Outcome Stage
  unfolding to_right choose_item
  press_left key_down m = ok (at (select_left ((m.left_win.selected + 1) % left_size) m))
  press_left key_up m = ok (at (select_left ((m.left_win.selected + left_size - 1) % left_size) m))
  press_left key_right m = ok (at (to_right m))
  press_left (key_enter first second) m = choose_item first second m
  press_left press m = ok (at m)

  -- One round of the loop.
  unfoldable pub on_press : Press → Menu → Outcome Stage
  unfolding press_left press_right
  on_press key_f1 m = ok (left_loop m)
  on_press timeout m = ok (at m)
  on_press press m =
      if m.left_win.active
      then press_left press m
      else if m.right_win.active
      then press_right press m
      else ok (at m)

  -- The loop, on the presses.
  unfoldable pub run_menu : List Press → Menu → Outcome Stage
  unfolding on_press
  run_menu [] m = ok (at m)
  run_menu (press ∷ presses) m = on_press press m >>= λ stage. elim stage [
    | at m' ↦ run_menu presses m'
    | in_dialog d ↦ ok (in_dialog d)
    | left_loop m' ↦ ok (left_loop m')
  ]
