-- ===== src/Examples/Screens.antt =====
-- The file system as the dialog shows it, and the keys that are pressed there.
use ufo_torrent.Common.{
  ℕ, ◌+◌, ◌-◌, true, false, not, [], ◌∷◌, Bytes, none, some, beq, ok, ◌≡◌, refl, ◌⊎◌, arith,
  Returns,
}
use ufo_torrent.Common.Int.{pos}
use ufo_torrent.TorrentFile.Create.{create_torrent_file}
use ufo_torrent.TorrentFile.Created.{IsCreated, create_torrent_file-IsCreated}
use ufo_torrent.Files.{Disk}
use ufo_torrent.Files.Path.{extension}
use ufo_torrent.Files.System.{FileSystem, answer, regular, directory}
use ufo_torrent.Terminal.Dialog.{down, enter, Dialog, returns, torrent_extension, run_dialog}
use ufo_torrent.Terminal.Chosen.{IsResult, run_dialog-IsResult}
use ufo_torrent.Terminal.Height.{Covers, calculate_path_height, calculate_path_height_cases}
use ufo_torrent.Terminal.Menu.{key_down, key_enter, run_menu, start_menu}
use ufo_torrent.Terminal.Reached.{IsStage, run_menu-start}

-- Every directory holds the torrent file "b.torrent" and the directory "A"; one walks over "/d/f".
abbrev torrent_name : Bytes
torrent_name = b'b' ∷ torrent_extension

abbrev names : FileSystem
names = record {
  exists = λ path. answer true;
  is_regular_file = λ path. answer (beq (extension path) torrent_extension);
  is_directory = λ path. answer (not (beq (extension path) torrent_extension));
  file_size = λ path. answer 3;
  listing = λ path. answer (
      record { name = torrent_name; kind = answer regular }
      ∷ record { name = b'A' ∷ []; kind = answer directory }
      ∷ []);
  walk = λ path. answer ((b'/' ∷ b'd' ∷ b'/' ∷ b'f' ∷ [], answer true) ∷ []);
  relative = λ path base. answer ((b'f' ∷ []) ∷ []);
}

abbrev root : Bytes
root = b'/' ∷ []

-- The file that the walk finds.
abbrev disk_f : Disk
disk_f = (b'/' ∷ b'd' ∷ b'/' ∷ b'f' ∷ [], 1 ∷ 2 ∷ 3 ∷ []) ∷ []

abbrev dialog_at : Dialog
dialog_at = record { current_dir = root; files = []; selected = 0; error = [] }

run_dialog-IsResult_example :
    IsResult names false
      (λ path. true)
      (run_dialog names false (λ path. true) (down ∷ enter ∷ down ∷ down ∷ enter ∷ []) dialog_at)
run_dialog-IsResult_example =
    run_dialog-IsResult names false (λ path. true) (down ∷ enter ∷ down ∷ down ∷ enter ∷ [])
      dialog_at

-- The keys go into the directory "A" and take the torrent file there.
chosen_path :
    run_dialog names false (λ path. true) (down ∷ enter ∷ down ∷ down ∷ enter ∷ []) dialog_at
    ≡ returns (b'/' ∷ b'A' ∷ b'/' ∷ torrent_name)
unfolding run_dialog
chosen_path = refl

calculate_path_height_cases_example :
    ((◌≡◌ {A = ℕ} 14 4) × ((more : ℕ) → calculate_path_height more 14 25 10 ≡ none))
    ⊎ ((m : ℕ) × (n : ℕ) × (calculate_path_height 30 14 25 10 ≡ some (3 + m + n))
        × Covers (14 - 4) 25 m
        × Covers (14 - 4) 10 n)
calculate_path_height_cases_example =
    calculate_path_height_cases 30 14 25 10 (omega arith) (omega arith) (omega arith) (omega arith)
      (omega arith) (omega arith)

create_torrent_file-IsCreated_example : Returns IsCreated (
    create_torrent_file names
      (λ bytes. bytes)
      disk_f
      root
      []
      root
      (b'/' ∷ b'd' ∷ [])
      none
      (some (pos 7)))
create_torrent_file-IsCreated_example =
    create_torrent_file-IsCreated names (λ bytes. bytes) disk_f root [] root (b'/' ∷ b'd' ∷ []) none
      (some (pos 7))

run_menu-start_example :
    Returns
      (IsStage names
        (λ bytes. bytes)
        root
        (λ path. true)
        (λ path dir. ok tt)
        (λ path. true)
        (λ path. true))
      (run_menu names
        (λ bytes. bytes)
        root
        (λ path. true)
        (λ path dir. ok tt)
        (λ path. true)
        (λ path. true)
        (key_enter (down ∷ down ∷ enter ∷ []) [] ∷ key_down ∷ [])
        (start_menu disk_f))
run_menu-start_example =
    run_menu-start names (λ bytes. bytes) root (λ path. true) (λ path dir. ok tt) (λ path. true)
      (λ path. true) (key_enter (down ∷ down ∷ enter ∷ []) [] ∷ key_down ∷ []) disk_f
