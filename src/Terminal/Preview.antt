-- ===== src/Terminal/Preview.antt =====
-- src/main.cpp: `showTorrentPreview`. The tree of directories is the map `dir_structure` as a list in the
-- order of its keys; a length that was never set is carried along as such. What is pressed is a list of
-- keys, and the number of rows for the content is an argument.
use ufo_torrent.Common.{
  ℕ, zero, suc, ◌+◌, ◌-◌, max, Bool, true, false, ◌&&◌, List, [], ◌∷◌, ◌++◌, Bytes, Option, none,
  some, ltb, leb, ◌==◌, if◌then◌else◌, length, is_empty, Outcome, ok, throws, undefined, aborted,
  ◌>>=◌,
}
use ufo_torrent.Bencode.{less}
use ufo_torrent.Bencode.Decode.{outcome, decode}
use ufo_torrent.TorrentFile.{TorrentFile, TorrentFileInfo}
use ufo_torrent.TorrentFile.Parse.{parse_torrent_file}
use ufo_torrent.Files.{Disk, read}
use ufo_torrent.Files.Path.{split_last, filename}
use ufo_torrent.Tracker.{has_prefix}

-- An entry of `dir_structure`: a directory with the files that stand in it.
pub record Dir : Type 0 where
  pub path : Bytes
  pub files : List (Bytes × Option ℕ)

-- `dir_structure[path]`, with more files for it.
unfoldable pub add_files : Bytes → List (Bytes × Option ℕ) → List Dir → List Dir
unfolding less
add_files path files [] = record { path = path; files = files } ∷ []
add_files path files (d ∷ ds) =
    let rest = add_files path files ds in
    if less path d.path
    then record { path = path; files = files } ∷ d ∷ ds
    else if less d.path path
    then d ∷ rest
    else record d { files = d.files ++ files } ∷ ds

-- `current_path += (current_path.empty() ? "" : "/") + part`.
abbrev pub extend : Bytes → Bytes → Bytes
extend path part = if is_empty path then path ++ part else path ++ (b'/' ∷ part)

-- The parts of the path of a file: all but the last are directories. An empty path is read out of
-- bounds, since its size less one wraps around.
unfoldable pub add_path : Bytes → Bytes → List Bytes → Option ℕ → List Dir → List Dir
unfolding add_files
add_path current part [] size tree = add_files current ((part, size) ∷ []) tree
add_path current part (p ∷ parts) size tree =
    add_path (extend current part) p parts size (add_files (extend current part) [] tree)

unfoldable pub add_info : TorrentFileInfo → List Dir → Outcome (List Dir)
unfolding add_path
add_info f tree = elim f.path [
  | [] ↦ undefined
  | part ∷ parts ↦ ok (add_path [] part parts f.length tree)
]

-- The loop over the files.
unfoldable pub dir_structure : List TorrentFileInfo → List Dir → Outcome (List Dir)
unfolding add_info
dir_structure [] tree = ok tree
dir_structure (f ∷ fs) tree = add_info f tree >>= λ grown. dir_structure fs grown

-- A line of the content: where it is drawn, how deep, and what it says, with a size for a file.
pub record Line : Type 0 where
  pub y : ℕ
  pub depth : ℕ
  pub text : Bytes
  pub size : Option ℕ

module _ (max_rows scroll_offset : ℕ) where
  -- A line that is drawn where it is not above the content.
  unfoldable pub draw : ℕ → ℕ → Bytes → Option ℕ → List Line
  draw row depth text size =
      if leb scroll_offset row
      then record { y = row - scroll_offset + 2; depth = depth; text = text; size = size } ∷ []
      else []

  -- The files of a directory; the ones below the content are not counted.
  unfoldable pub display_files : ℕ → List (Bytes × Option ℕ) → ℕ → ℕ × List Line
  unfolding draw
  display_files depth [] row = (row, [])
  display_files depth ((name, size) ∷ files) row =
      if leb (max_rows + scroll_offset) row
      then display_files depth files row
      else (let (last, lines) = display_files depth files (row + 1) in
          (last, draw row depth name size ++ lines))

  -- Whether the entry stands right under the path.
  unfoldable pub is_child : Bytes → Dir → Bool
  unfolding has_prefix split_last
  is_child path d = has_prefix (path ++ (b'/' ∷ [])) d.path && (elim (split_last d.path) [
    | none ↦ false
    | some (before, after) ↦ length before == length path
  ])

  -- The loops over the directories that pass a test, each displayed from the row that was reached.
  unfoldable pub display_each :
      (Dir → Bool) → (Dir → ℕ → Option (ℕ × List Line)) → List Dir → ℕ → Option (ℕ × List Line)
  display_each test display [] row = some (row, [])
  display_each test display (d ∷ ds) row =
      if test d
      then elim (display d row) [
        | none ↦ none
        | some (reached, lines) ↦ elim (display_each test display ds reached) [
          | none ↦ none
          | some (last, more) ↦ some (last, lines ++ more)
        ]
      ]
      else display_each test display ds row

  -- `display_tree`, on fuel, since it calls itself for the directories below.
  unfoldable pub display_tree : ℕ → List Dir → ℕ → Dir → ℕ → Option (ℕ × List Line)
  unfolding display_files display_each is_child filename
  display_tree zero tree depth d row = none
  display_tree (suc fuel) tree depth d row =
      if leb (max_rows + scroll_offset) row
      then some (row, [])
      else (let (below, lines) = display_files (depth + 1) d.files (row + 1) in
          elim (display_each (is_child d.path) (display_tree fuel tree (depth + 1)) tree below) [
            | none ↦ none
            | some (last, more) ↦
                some (last, draw row depth (filename d.path) none ++ (lines ++ more))
          ])

  -- A directory of the top has no slash in its path.
  unfoldable pub is_top : Dir → Bool
  unfolding split_last
  is_top d = elim (split_last d.path) [ none ↦ true | some parts ↦ false ]

  abbrev pub longest : List Dir → ℕ
  longest [] = 0
  longest (d ∷ ds) = max (length d.path) (longest ds)

  -- The lines of the whole tree.
  unfoldable pub display_all : List Dir → Option (ℕ × List Line)
  unfolding display_each display_tree is_top
  display_all tree = display_each is_top (display_tree (suc (longest tree)) tree 0) tree 0

pub data PreviewKey : Type 0 where
  scroll_up scroll_down accept leave unknown_key : PreviewKey

-- The loop over the keys, whose state is the scroll offset: the answer, or `none` while it waits.
unfoldable pub preview_keys : Bool → List PreviewKey → ℕ → Option Bool
preview_keys needs_scrolling [] offset = none
preview_keys needs_scrolling (scroll_up ∷ keys) offset =
    preview_keys needs_scrolling keys (if needs_scrolling then offset - 1 else offset)
preview_keys needs_scrolling (scroll_down ∷ keys) offset =
    preview_keys needs_scrolling keys (if needs_scrolling then offset + 1 else offset)
preview_keys needs_scrolling (accept ∷ keys) offset = some true
preview_keys needs_scrolling (leave ∷ keys) offset = some false
preview_keys needs_scrolling (unknown_key ∷ keys) offset = preview_keys needs_scrolling keys offset

-- The torrent file of a path; what `std::exception` covers is caught.
unfoldable pub load_torrent : (Bytes → Option ℕ) → Disk → Bytes → Outcome TorrentFile
unfolding read decode parse_torrent_file
load_torrent lexical_cast disk path = do
  content ← read disk path
  value ← outcome (decode lexical_cast content)
  parse_torrent_file value

-- A preview that has read the torrent file; the tree is built before the first key is read.
unfoldable pub preview : ℕ → List PreviewKey → TorrentFile → Outcome (Option Bool)
unfolding dir_structure preview_keys
preview max_rows keys t =
    if is_empty t.info.files
    then ok (preview_keys false keys 0)
    else (dir_structure t.info.files [] >>= λ tree.
        ok (preview_keys (ltb max_rows (length t.info.files)) keys 0))

-- `showTorrentPreview`.
unfoldable pub show_torrent_preview :
    (Bytes → Option ℕ) → Disk → ℕ → List PreviewKey → Bytes → Outcome (Option Bool)
unfolding load_torrent preview
show_torrent_preview lexical_cast disk max_rows keys path =
    elim (load_torrent lexical_cast disk path) [
      | ok t ↦ preview max_rows keys t
      | throws e ↦ ok (some false)
      | undefined ↦ undefined
      | aborted ↦ aborted
    ]
