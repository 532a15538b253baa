-- ===== src/Terminal/Dialog.antt =====
-- src/main.cpp: `fileDialog`. What the user presses is a list of keys; whether the preview of a
-- torrent file is accepted is an argument.
use ufo_torrent.Common.{
  ℕ, ◌+◌, ◌-◌, min, Bool, true, false, not, ◌&&◌, List, [], ◌∷◌, Bytes, Option, none, some, ltb,
  leb, beq, if◌then◌else◌, length, is_empty, get_elem?,
}
use ufo_torrent.Bencode.{less}
use ufo_torrent.Files.Path.{parent_path, extension, join}
use ufo_torrent.Files.System.{
  regular, directory, other, FileSystem, DirEntry, Attempt, answer, refused,
}

pub data Key : Type 0 where
  up down move enter quit back other_key : Key

pub record Dialog : Type 0 where
  pub current_dir : Bytes
  pub files : List Bytes
  pub selected : ℕ
  pub error : Bytes

-- What a key leads to.
pub data Next : Type 0 where
  stays : Dialog → Next
  returns : Bytes → Next
  undefined : Next

-- "..".
abbrev pub parent_name : Bytes
parent_name = b'.' ∷ b'.' ∷ []

-- ".torrent".
abbrev pub torrent_extension : Bytes
torrent_extension = b'.' ∷ b't' ∷ b'o' ∷ b'r' ∷ b'r' ∷ b'e' ∷ b'n' ∷ b't' ∷ []

-- The message of a refusal.
abbrev pub error_text : Bytes → Bytes
error_text what = b'E' ∷ b'r' ∷ b'r' ∷ b'o' ∷ b'r' ∷ b':' ∷ b' ' ∷ what

-- `to_low`, on the letters of ASCII.
unfoldable pub to_low : Bytes → Bytes
to_low [] = []
to_low (c ∷ s) = (if leb b'A' c && leb c b'Z' then c + 32 else c) ∷ to_low s

-- `std::sort` by the names in lower case; the order among equals is one of those that it allows.
unfoldable pub insert_name : Bytes → List Bytes → List Bytes
unfolding to_low less
insert_name x [] = x ∷ []
insert_name x (y ∷ ys) =
    let rest = insert_name x ys in if less (to_low y) (to_low x) then y ∷ rest else x ∷ y ∷ ys

unfoldable pub sort_names : List Bytes → List Bytes
unfolding insert_name
sort_names [] = []
sort_names (x ∷ xs) = insert_name x (sort_names xs)

-- Whether an entry is listed; one that refuses to tell its kind is passed over.
unfoldable pub is_listed : Bool → DirEntry → Bool
unfolding extension
is_listed only_dirs e = elim e.kind [
  | answer k ↦ elim k [
    | regular ↦ not only_dirs && beq (extension e.name) torrent_extension
    | directory ↦ true
    | other ↦ false
  ]
  | refused what ↦ false
]

unfoldable pub listed_names : Bool → List DirEntry → List Bytes
unfolding is_listed
listed_names only_dirs [] = []
listed_names only_dirs (e ∷ es) =
    let rest = listed_names only_dirs es in if is_listed only_dirs e then e.name ∷ rest else rest

-- `std::clamp(selected, 0, size - 1)`.
abbrev pub clamp : ℕ → ℕ → ℕ
clamp selected size = min selected (size - 1)

module _ (fs : FileSystem) (only_dirs : Bool) where
  -- The names that are found, and the message where the directory cannot be read.
  unfoldable pub read_names : Bytes → List Bytes × Bytes
  unfolding listed_names
  read_names dir = elim (fs.listing dir) [
    | answer es ↦ (parent_name ∷ listed_names only_dirs es, [])
    | refused what ↦ (parent_name ∷ [], error_text what)
  ]

  -- The start of a round: the old message goes, and the directory is read again. The selection is
  -- clamped before the names are sorted.
  unfoldable pub refresh : Dialog → Dialog
  unfolding read_names sort_names
  refresh d =
      let (names, message) = read_names d.current_dir in
      record d {
        files = sort_names names;
        selected = clamp d.selected (length names);
        error = message;
      }

  unfoldable pub enter_dir : Bytes → Dialog → Dialog
  enter_dir dir d = record d { current_dir = dir; selected = 0 }

  -- `fs::exists(parent) && fs::is_directory(parent)`.
  unfoldable pub is_folder : Bytes → Attempt Bool
  is_folder path = elim (fs.exists path) [
    | refused what ↦ refused what
    | answer there ↦ if there then fs.is_directory path else answer false
  ]

  unfoldable pub go_parent : Dialog → Dialog
  unfolding parent_path is_folder enter_dir
  go_parent d =
      let parent = parent_path d.current_dir in
      if is_empty parent then d else elim (is_folder parent) [
        | refused what ↦ record d { error = error_text what }
        | answer is_dir ↦ if is_dir then enter_dir parent d else d
      ]

  -- A directory is entered where it can be read.
  unfoldable pub go_into : Bytes → Dialog → Dialog
  unfolding enter_dir
  go_into path d = elim (fs.listing path) [
    | refused what ↦ record d { error = error_text what }
    | answer es ↦ enter_dir path d
  ]

  -- The key E on a choice.
  unfoldable pub move_to : Bytes → Dialog → Dialog
  unfolding go_parent go_into join
  move_to choice d =
      if not only_dirs
      then d
      else if beq choice parent_name
      then go_parent d
      else go_into (join d.current_dir choice) d

  module _ (accepts : Bytes → Bool) where
    -- A choice that is no directory is taken where it is a torrent file that the user accepts.
    unfoldable pub open_path : Bytes → Dialog → Next
    unfolding go_into extension
    open_path path d = elim (fs.is_directory path) [
      | refused what ↦ stays (record d { error = error_text what })
      | answer is_dir ↦
          if is_dir
          then stays (go_into path d)
          else if beq (extension path) torrent_extension && accepts path
          then returns path
          else stays d
    ]

    -- The key Enter on a choice.
    unfoldable pub take_choice : Bytes → Dialog → Next
    unfolding go_parent open_path join
    take_choice choice d =
        if beq choice parent_name
        then stays (go_parent d)
        else if only_dirs
        then returns (join d.current_dir choice)
        else open_path (join d.current_dir choice) d

    -- The name under the selection, and what is done with it.
    abbrev pub at_selected : Option Bytes → (Bytes → Next) → Next
    at_selected none f = undefined
    at_selected (some choice) f = f choice

    -- The `switch` over the key.
    unfoldable pub on_key : Key → Dialog → Next
    unfolding take_choice move_to go_parent
    on_key up d = stays (record d { selected = d.selected - 1 })
    on_key down d =
        stays (
          if ltb d.selected (length d.files - 1) then record d { selected = d.selected + 1 } else d)
    on_key move d =
        if only_dirs
        then at_selected (get_elem? d.files d.selected) (λ choice. stays (move_to choice d))
        else stays d
    on_key enter d = at_selected (get_elem? d.files d.selected) (λ choice. take_choice choice d)
    on_key quit d = returns []
    on_key back d = stays (go_parent d)
    on_key other_key d = stays d

    -- The loop, on the keys that are pressed; without a key it waits in the state that is shown.
    unfoldable pub run_dialog : List Key → Dialog → Next
    unfolding refresh on_key
    run_dialog [] d = stays (refresh d)
    run_dialog (k ∷ ks) d = elim (on_key k (refresh d)) [
      | stays d' ↦ run_dialog ks d'
      | returns path ↦ returns path
      | undefined ↦ undefined
    ]

    -- `fileDialog` from its start; "." stands for the directory of the process.
    unfoldable pub file_dialog : Bytes → Bytes → List Key → Next
    unfolding run_dialog
    file_dialog current_path start_dir keys = run_dialog keys (record {
      current_dir = if beq start_dir (b'.' ∷ []) then current_path else start_dir;
      files = [];
      selected = 0;
      error = [];
    })
