-- ===== src/Terminal/Reached.antt =====
-- What the loop of `main` keeps, from its start on.
use ufo_torrent.Common.{
  ℕ, ◌+◌, ◌-◌, ◌%◌, ◌<◌, Bool, true, false, List, [], ◌∷◌, All, Bytes, none, ◌==◌, if◌then◌else◌,
  length, is_empty, Outcome, ok, ◌≡◌, refl, sym, subst, ◌⊎◌, inl, inr, arith, All-append, Returns,
  Returns-bind, Returns-after, Returns-if,
}
use ufo_torrent.TorrentFile.{TorrentFile}
use ufo_torrent.TorrentFile.Create.{create_torrent_file}
use ufo_torrent.TorrentFile.Print.{to_value}
use ufo_torrent.Bencode.{encode}
use ufo_torrent.Files.{Disk, create_file}
use ufo_torrent.Files.System.{FileSystem}
use ufo_torrent.Terminal.Dialog.{Key, Next, stays, returns, file_dialog}
use ufo_torrent.Terminal.Chosen.{IsChoice, IsResult, run_dialog-IsResult}
use ufo_torrent.Terminal.Menu.{
  Menu, Press, key_f1, key_down, key_up, key_left, key_right, other_press, timeout, key_enter,
  Stage, at, in_dialog, left_loop, with_path, file_path, dir_path, add_torrent, out_file,
  write_example, create_example, choose_item, press_left, on_press, run_menu, to_right, exemple,
  tester, select_left, left_size, start_menu,
}

module _ (fs : FileSystem) (sha1 : Bytes → Bytes) (current_path : Bytes) (accepts : Bytes → Bool)
    (takes : Bytes → Bytes → Outcome (Unit {0})) (opens writes : Bytes → Bool) where
  -- The selection is on an item of the left window, which is the active one, and the right window is
  -- empty. Each torrent of the session is a file with the name of a torrent file that the user
  -- accepted.
  pub record IsReached (m : Menu) : Type 0 where
    pub left_selected : m.left_win.selected < left_size
    pub left_active : m.left_win.active ≡ true
    pub right_passive : m.right_win.active ≡ false
    pub right_empty : m.right_win.items ≡ []
    pub none_selected : m.selected_torrents ≡ []
    pub accepted : All (λ (added : Bytes × Bytes). IsChoice fs false accepts added.0) m.session

  abbrev pub IsStage : Stage → Type 0
  IsStage (at m) = IsReached m
  IsStage (in_dialog d) = d.selected < length d.files
  IsStage (left_loop m) = IsReached m

  same_windows :
      (m : Menu) (dir : Bytes) (disk : Disk)
      → IsReached m
      → IsReached (record m { down_dir = dir; disk = disk })
  same_windows m dir disk h = record {
    left_selected = h.left_selected;
    left_active = h.left_active;
    right_passive = h.right_passive;
    right_empty = h.right_empty;
    none_selected = h.none_selected;
    accepted = h.accepted;
  }

  reselected : (m : Menu) (i : ℕ) → i < left_size → IsReached m → IsReached (select_left i m)
  reselected m i l h = record {
    left_selected = l;
    left_active = h.left_active;
    right_passive = h.right_passive;
    right_empty = h.right_empty;
    none_selected = h.none_selected;
    accepted = h.accepted;
  }

  with_path-IsStage :
      (only_dirs : Bool) (next : Next) (f : Bytes → Outcome Stage)
      → IsResult fs only_dirs accepts next
      → ((path : Bytes)
          → (path ≡ []) ⊎ IsChoice fs only_dirs accepts path
          → Returns IsStage (f path))
      → Returns IsStage (with_path next f)
  with_path-IsStage only_dirs (stays d) f h k = h
  with_path-IsStage only_dirs (returns path) f h k = k path h
  with_path-IsStage only_dirs Next.undefined f h k = absurd h

  file_dialog-IsResult :
      (only_dirs : Bool) (keys : List Key)
      → IsResult fs only_dirs accepts
          (file_dialog fs only_dirs accepts current_path (b'.' ∷ []) keys)
  unfolding file_dialog
  file_dialog-IsResult only_dirs keys = run_dialog-IsResult fs only_dirs accepts keys _

  add_torrent-IsStage :
      (m : Menu) (path : Bytes)
      → IsReached m
      → (path ≡ []) ⊎ IsChoice fs false accepts path
      → Returns IsStage (add_torrent fs sha1 current_path accepts takes opens writes m path)
  unfolding add_torrent
  add_torrent-IsStage m path h (inl none_given) = rw none_given h
  add_torrent-IsStage m path h (inr choice) = Returns-if IsStage (is_empty path) _ _ h (
      Returns-after IsStage (takes path m.down_dir) _ λ done. record {
        left_selected = h.left_selected;
        left_active = h.left_active;
        right_passive = h.right_passive;
        right_empty = h.right_empty;
        none_selected = h.none_selected;
        accepted =
            All-append (λ (added : Bytes × Bytes). IsChoice fs false accepts added.0) m.session
              ((path, m.down_dir) ∷ []) h.accepted (choice, tt);
      })

  write_example-IsStage :
      (m : Menu) (torrent : TorrentFile) (path : Bytes)
      → IsReached m
      → Returns IsStage
          (write_example fs sha1 current_path accepts takes opens writes m torrent path)
  unfolding write_example
  write_example-IsStage m torrent path h = Returns-if IsStage (is_empty path) _ _ h (
      Returns-after IsStage (out_file fs sha1 current_path accepts takes opens writes path) _ λ out.
        Returns-after IsStage (to_value torrent) _ λ v.
          Returns-after IsStage (encode v) _ λ content.
            Returns-after IsStage (create_file (opens out) (writes out) out content m.disk).1 _
              λ done. same_windows m m.down_dir _ h)

  create_example-IsStage :
      (m : Menu) (second : List Key) (path : Bytes)
      → IsReached m
      → Returns IsStage
          (create_example fs sha1 current_path accepts takes opens writes m second path)
  unfolding create_example
  create_example-IsStage m second path h = Returns-if IsStage (is_empty path) _ _ h (
      Returns-after IsStage
        (create_torrent_file fs sha1 m.disk exemple ((exemple ∷ []) ∷ []) tester path none none) _
        λ torrent.
          with_path-IsStage true (dir_path fs sha1 current_path accepts takes opens writes second) _
            (file_dialog-IsResult true second)
            (λ out choice. write_example-IsStage m torrent out h))

  choose_item-IsStage :
      (first second : List Key) (m : Menu)
      → IsReached m
      → Returns IsStage (choose_item fs sha1 current_path accepts takes opens writes first second m)
  unfolding choose_item
  choose_item-IsStage first second m h =
      Returns-if IsStage (m.left_win.selected == 0) _ _
        (with_path-IsStage false (file_path fs sha1 current_path accepts takes opens writes first) _
          (file_dialog-IsResult false first) (λ path p. add_torrent-IsStage m path h p))
        (Returns-if IsStage (m.left_win.selected == 1) _ _
          (with_path-IsStage true (dir_path fs sha1 current_path accepts takes opens writes first) _
            (file_dialog-IsResult true first) (λ path p. same_windows m path m.disk h))
          (Returns-if IsStage (m.left_win.selected == 2) _ _
            (with_path-IsStage true (dir_path fs sha1 current_path accepts takes opens writes first)
              _ (file_dialog-IsResult true first)
              (λ path p. create_example-IsStage m second path h))
            (Returns-if IsStage (m.left_win.selected == 3) _ _ h h)))

  press_left-IsStage :
      (press : Press) (m : Menu)
      → IsReached m
      → Returns IsStage (press_left fs sha1 current_path accepts takes opens writes press m)
  unfolding press_left to_right
  press_left-IsStage key_down m h = reselected m ((m.left_win.selected + 1) % 4) (omega arith) h
  press_left-IsStage key_up m h = reselected m ((m.left_win.selected + 4 - 1) % 4) (omega arith) h
  press_left-IsStage key_right m h = simp h.none_selected h
  press_left-IsStage (key_enter first second) m h = choose_item-IsStage first second m h
  press_left-IsStage key_f1 m h = h
  press_left-IsStage key_left m h = h
  press_left-IsStage other_press m h = h
  press_left-IsStage timeout m h = h

  in_left :
      (m : Menu) (left right : Outcome Stage)
      → IsReached m
      → Returns IsStage left
      → Returns IsStage (if m.left_win.active then left else right)
  in_left m left right h s =
      subst (λ b. Returns IsStage (if b then left else right)) (sym h.left_active) s

  on_press-IsStage :
      (press : Press) (m : Menu)
      → IsReached m
      → Returns IsStage (on_press fs sha1 current_path accepts takes opens writes press m)
  unfolding on_press
  on_press-IsStage key_f1 m h = h
  on_press-IsStage timeout m h = h
  on_press-IsStage key_down m h = in_left m _ _ h (press_left-IsStage key_down m h)
  on_press-IsStage key_up m h = in_left m _ _ h (press_left-IsStage key_up m h)
  on_press-IsStage key_left m h = in_left m _ _ h (press_left-IsStage key_left m h)
  on_press-IsStage key_right m h = in_left m _ _ h (press_left-IsStage key_right m h)
  on_press-IsStage other_press m h = in_left m _ _ h (press_left-IsStage other_press m h)
  on_press-IsStage (key_enter first second) m h =
      in_left m _ _ h (press_left-IsStage (key_enter first second) m h)

  run_menu-IsStage :
      (presses : List Press) (m : Menu)
      → IsReached m
      → Returns IsStage (run_menu fs sha1 current_path accepts takes opens writes presses m)
  unfolding run_menu
  run_menu-IsStage [] m h = h
  run_menu-IsStage (press ∷ presses) m h =
      Returns-bind IsStage IsStage
        (on_press fs sha1 current_path accepts takes opens writes press m) _
        (on_press-IsStage press m h)
        λ stage.
          elim stage
            as (λ reached.
              IsStage reached
              → Returns IsStage (elim reached [
                | at m' ↦ run_menu fs sha1 current_path accepts takes opens writes presses m'
                | in_dialog d ↦ ok (in_dialog d)
                | left_loop m' ↦ ok (left_loop m')
              ])) [
                | at m' ↦ λ s. run_menu-IsStage presses m' s
                | in_dialog d ↦ λ s. s
                | left_loop m' ↦ λ s. s
              ]

  -- From the start of the program on, after any presses: the right window is empty and never the
  -- active one, since `selectedTorrents` is never filled, and the selection is on an item of the left
  -- window. Each torrent of the session was listed by the dialog under a name that ends in ".torrent",
  -- and the user accepted it. While a dialog is open, its selection is on a name.
  pub run_menu-start :
      (presses : List Press) (disk : Disk)
      → Returns IsStage
          (run_menu fs sha1 current_path accepts takes opens writes presses (start_menu disk))
  run_menu-start presses disk = run_menu-IsStage presses (start_menu disk) (record {
    left_selected = omega arith;
    left_active = refl;
    right_passive = refl;
    right_empty = refl;
    none_selected = refl;
    accepted = tt;
  })
