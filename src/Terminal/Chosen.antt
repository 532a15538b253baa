-- ===== src/Terminal/Chosen.antt =====
-- What the dialog shows and gives back.
use ufo_torrent.Common.{
  ℕ, suc, ◌<◌, Bool, true, false, ◌&&◌, List, [], ◌∷◌, All, Bytes, some, beq, if◌then◌else◌, length,
  get_elem?, ◌≡◌, refl, ◌⊎◌, inl, inr, arith, Bool-cases, eq_of_beq, All-imp, All-get_elem?,
}
use ufo_torrent.Files.Path.{extension, join}
use ufo_torrent.Files.System.{FileSystem, DirEntry, answer, Attempt-cases}
use ufo_torrent.Terminal.Dialog.{
  Key, up, down, move, enter, quit, back, other_key, Dialog, Next, stays, returns, undefined,
  parent_name, torrent_extension, is_listed, listed_names, read_names, refresh, go_parent, move_to,
  open_path, take_choice, on_key, run_dialog,
}
use ufo_torrent.Terminal.Sorting.{All-sort_names, length-sort_names}

-- The name is that of an entry that passes the test.
abbrev pub IsNamed : (DirEntry → Type 0) → List DirEntry → Bytes → Type 0
IsNamed P es name = (i : ℕ) × (e : DirEntry) × (get_elem? es i ≡ some e) × (e.name ≡ name) × P e

listed_names-IsNamed :
    (only_dirs : Bool) (es : List DirEntry)
    → All (IsNamed (λ e. is_listed only_dirs e ≡ true) es) (listed_names only_dirs es)
unfolding listed_names
listed_names-IsNamed only_dirs [] = tt
listed_names-IsNamed only_dirs (e ∷ es) =
    let rest =
      All-imp (listed_names only_dirs es) (λ name (i, e', at, same, p). (suc i, e', at, same, p))
        (listed_names-IsNamed only_dirs es) in
    elim (Bool-cases (is_listed only_dirs e)) [
      | inl h ↦ rw h ((0, e, refl, refl, h), rest)
      | inr h ↦ rw h rest
    ]

module _ (fs : FileSystem) (only_dirs : Bool) where
  -- The directory lists an entry of this name.
  abbrev pub IsListed : Bytes → Bytes → Type 0
  IsListed dir name =
      (es : List DirEntry) × (fs.listing dir ≡ answer es)
      × IsNamed (λ e. is_listed only_dirs e ≡ true) es name

  -- The selection is on a name, and each name is ".." or that of an entry.
  abbrev IsShown : Dialog → Type 0
  IsShown d =
      (d.selected < length d.files)
      × All (λ name. (name ≡ parent_name) ⊎ IsListed d.current_dir name) d.files

  read_names-IsListed :
      (dir : Bytes)
      → (0 < length (read_names fs only_dirs dir).0)
        × All (λ name. (name ≡ parent_name) ⊎ IsListed dir name) (read_names fs only_dirs dir).0
  unfolding read_names
  read_names-IsListed dir = elim (Attempt-cases (fs.listing dir)) [
    | inl (es, h) ↦
        rw (read_names, h)
          (
            omega arith,
            (
              inl refl,
              All-imp (listed_names only_dirs es) (λ name named. inr (es, refl, named))
                  (listed_names-IsNamed only_dirs es),
            ),
          )
    | inr (what, h) ↦ rw (read_names, h) (omega arith, (inl refl, tt))
  ]

  pub refresh-IsShown : (d : Dialog) → IsShown (refresh fs only_dirs d)
  unfolding refresh
  refresh-IsShown d =
      let names = (read_names fs only_dirs d.current_dir).0 in
      let (some_name, listed) = read_names-IsListed d.current_dir in
      let same = length-sort_names names in
      (
        omega (arith, some_name, same),
        All-sort_names (λ name. (name ≡ parent_name) ⊎ IsListed d.current_dir name) names listed,
      )

  -- The path is that of a directory that was listed, or of a torrent file that was listed and
  -- accepted.
  abbrev pub IsChoice : (Bytes → Bool) → Bytes → Type 0
  IsChoice accepts path =
      (dir : Bytes) × (name : Bytes) × (path ≡ join dir name)
      × IsListed dir name
      × (only_dirs ≡ false
          → (fs.is_directory path ≡ answer false)
            × (extension path ≡ torrent_extension)
            × (accepts path ≡ true))

  -- The selection is on a name while the dialog stays open, and what it returns is empty or a
  -- choice.
  abbrev pub IsResult : (Bytes → Bool) → Next → Type 0
  IsResult accepts (stays d) = d.selected < length d.files
  IsResult accepts (returns path) = (path ≡ []) ⊎ IsChoice accepts path
  IsResult accepts undefined = ⊥

  -- The same for one key; what stays is refreshed next.
  abbrev IsStep : (Bytes → Bool) → Next → Type 0
  IsStep accepts (stays d) = Unit
  IsStep accepts (returns path) = (path ≡ []) ⊎ IsChoice accepts path
  IsStep accepts undefined = ⊥

  module _ (accepts : Bytes → Bool) where
    IsStep-if :
        (b : Bool) (m n : Next)
        → (b ≡ true → IsStep accepts m)
        → (b ≡ false → IsStep accepts n)
        → IsStep accepts (if b then m else n)
    IsStep-if true m n h k = h refl
    IsStep-if false m n h k = k refl

    open_path-IsStep :
        (name : Bytes) (d : Dialog)
        → IsListed d.current_dir name
        → IsStep accepts (open_path fs only_dirs accepts (join d.current_dir name) d)
    unfolding open_path
    open_path-IsStep name d h =
        let path = join d.current_dir name in
        elim (Attempt-cases (fs.is_directory path)) [
          | inr (what, e) ↦ rw (IsStep, e) tt
          | inl (true, e) ↦ rw (IsStep, e) tt
          | inl (false, e) ↦
              rw (IsStep, e)
                (IsStep-if (beq (extension path) torrent_extension && accepts path) (returns path)
                  (stays d)
                  (λ t. inr (
                    d.current_dir,
                    name,
                    refl,
                    h,
                    λ files. (
                      e,
                      eq_of_beq (extension path) torrent_extension (grind arith),
                      grind arith,
                    ),
                  ))
                  (λ f. tt))
        ]

    take_choice-IsStep :
        (name : Bytes) (d : Dialog)
        → (name ≡ parent_name) ⊎ IsListed d.current_dir name
        → IsStep accepts (take_choice fs only_dirs accepts name d)
    unfolding take_choice
    take_choice-IsStep name d (inl h) = rw h tt
    take_choice-IsStep name d (inr h) =
        let path = join d.current_dir name in
        IsStep-if (beq name parent_name) (stays (go_parent fs only_dirs d))
          (if only_dirs then returns path else open_path fs only_dirs accepts path d) (λ t. tt)
          (λ f.
            IsStep-if only_dirs (returns path) (open_path fs only_dirs accepts path d)
              (λ dirs. inr (d.current_dir, name, refl, h, λ files. cc))
              (λ files. open_path-IsStep name d h))

    on_key-IsStep :
        (k : Key) (d : Dialog) → IsShown d → IsStep accepts (on_key fs only_dirs accepts k d)
    unfolding on_key
    on_key-IsStep up d h = tt
    on_key-IsStep down d h = tt
    on_key-IsStep move d h =
        let (name, at, from) =
          All-get_elem? (λ name. (name ≡ parent_name) ⊎ IsListed d.current_dir name) d.files
            d.selected h.0 h.1 in
        rw at
          (IsStep-if only_dirs (stays (move_to fs only_dirs name d)) (stays d) (λ t. tt) (λ f. tt))
    on_key-IsStep enter d h =
        let (name, at, from) =
          All-get_elem? (λ name. (name ≡ parent_name) ⊎ IsListed d.current_dir name) d.files
            d.selected h.0 h.1 in
        rw at (take_choice-IsStep name d from)
    on_key-IsStep quit d h = inl refl
    on_key-IsStep back d h = tt
    on_key-IsStep other_key d h = tt

    IsResult-run :
        (ks : List Key) (d : Dialog) (m : Next)
        → IsStep accepts m
        → ((d' : Dialog) → IsResult accepts (run_dialog fs only_dirs accepts ks d'))
        → IsResult accepts (elim m [
          | stays d' ↦ run_dialog fs only_dirs accepts ks d'
          | returns path ↦ returns path
          | undefined ↦ undefined
        ])
    IsResult-run ks d (stays d') h f = f d'
    IsResult-run ks d (returns path) h f = h
    IsResult-run ks d undefined h f = h

    -- Whatever keys are pressed, the dialog never reads a name out of bounds: while it stays open,
    -- the selection is on a name that is shown, and a path that it returns is empty or joins a
    -- directory with the name of an entry that the directory lists. When files are asked for, that
    -- path is no directory, it ends in ".torrent", and the user accepted it.
    pub run_dialog-IsResult :
        (ks : List Key) (d : Dialog) → IsResult accepts (run_dialog fs only_dirs accepts ks d)
    unfolding run_dialog
    run_dialog-IsResult [] d = (refresh-IsShown d).0
    run_dialog-IsResult (k ∷ ks) d =
        IsResult-run ks d (on_key fs only_dirs accepts k (refresh fs only_dirs d))
          (on_key-IsStep k (refresh fs only_dirs d) (refresh-IsShown d)) (run_dialog-IsResult ks)
