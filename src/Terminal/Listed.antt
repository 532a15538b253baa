-- ===== src/Terminal/Listed.antt =====
-- The files that the preview of a torrent file lists.
use ufo_torrent.Common.{
  ℕ, ◌+◌, Bool, true, false, not, List, [], ◌∷◌, all, Bytes, Option, is_empty, ok, undefined, ◌≡◌,
  ◌⊎◌,
}
use ufo_torrent.TorrentFile.{TorrentFileInfo}
use ufo_torrent.Terminal.Preview.{Dir, extend, dir_structure}

-- The path of the directory of a file, from what stands before it, and the last part of its path.
abbrev pub dir_from : Bytes → Bytes → List Bytes → Bytes
dir_from current part [] = current
dir_from current part (p ∷ parts) = dir_from (extend current part) p parts

abbrev pub last_part : Bytes → List Bytes → Bytes
last_part part [] = part
last_part part (p ∷ parts) = last_part p parts

-- Sums over all files, of any weight of a directory, a name and a size: equal sums for every weight are
-- the same files in the same directories, each as often.
module _ (weight : Bytes → Bytes × Option ℕ → ℕ) where
  abbrev pub weigh_files : Bytes → List (Bytes × Option ℕ) → ℕ
  weigh_files path [] = 0
  weigh_files path (f ∷ fs) = weight path f + weigh_files path fs

  abbrev pub weigh_tree : List Dir → ℕ
  weigh_tree [] = 0
  weigh_tree (d ∷ ds) = weigh_files d.path d.files + weigh_tree ds

  -- The weight of a file of the torrent file; one without a path has none.
  abbrev pub weigh_info : TorrentFileInfo → ℕ
  weigh_info f = elim f.path [
    | [] ↦ 0
    | part ∷ parts ↦ weight (dir_from [] part parts) (last_part part parts, f.length)
  ]

  abbrev pub weigh_infos : List TorrentFileInfo → ℕ
  weigh_infos [] = 0
  weigh_infos (f ∷ fs) = weigh_info f + weigh_infos fs

-- Every file has a path.
abbrev pub all_named : List TorrentFileInfo → Bool
all_named fs = all (λ (f : TorrentFileInfo). not (is_empty f.path)) fs

-- The tree that files are added to has got just these files.
abbrev pub IsGrown : List TorrentFileInfo → List Dir → List Dir → Type 0
IsGrown fs tree grown =
    (weight : Bytes → Bytes × Option ℕ → ℕ)
    → weigh_tree weight grown ≡ weigh_tree weight tree + weigh_infos weight fs

-- What becomes of a tree to which files are added.
abbrev pub Grows : List TorrentFileInfo → List Dir → Type 0
Grows fs tree =
    ((all_named fs ≡ false) × (dir_structure fs tree ≡ undefined))
    ⊎ ((grown : List Dir) × (all_named fs ≡ true)
        × (dir_structure fs tree ≡ ok grown)
        × IsGrown fs tree grown)
