-- ===== src/CommandLine.antt =====
-- src/network_part/main.cpp, and the whole of `downloadFile` as its caller sees it. What cxxopts reads out of
-- the arguments is an argument, and so is what the loop of the download ends in.
pub mod Exits
use ufo_torrent.Common.{
  ℕ, Bool, [], Bytes, Option, none, some, if◌then◌else◌, Outcome, ok, throws, undefined, aborted,
  invalid_argument, ◌>>=◌, ◌>>◌,
}
use ufo_torrent.Common.Int.{ℤ}
use ufo_torrent.Client.{Download}

-- The parsed options: `count` of help, the values that have a default, and those that may be missing.
-- An access to a value that is not of the type throws.
pub record Options : Type 0 where
  pub help : Bool
  pub thread_num : Outcome ℤ
  pub logging : Outcome Bool
  pub log_file : Outcome Bytes
  pub torrent_file : Option (Outcome Bytes)
  pub output_dir : Option (Outcome Bytes)

-- An exception that leaves `downloadFile` when its threads run: the destructor of a thread that was not
-- joined ends the program.
abbrev pub unjoined : Outcome (Unit {0}) → Outcome (Unit {0})
unjoined (ok _) = ok tt
unjoined (throws e) = aborted
unjoined undefined = undefined
unjoined aborted = aborted

-- `downloadFile`, from what it has prepared on, and how its loop with `terminate` ends.
unfoldable pub download_file :
    Outcome (Option Download) → (Download → Outcome (Unit {0})) → Outcome (Unit {0})
download_file prepared run =
    prepared >>= λ d. elim d [ none ↦ ok tt | some download ↦ unjoined (run download) ]

-- An option that has to be there.
abbrev pub specified : Option (Outcome Bytes) → Outcome (Outcome Bytes)
specified (some value) = ok value
specified none = throws invalid_argument

-- The `try` block, and the number that `main` returns behind it.
unfoldable pub try_main : Outcome Options → (ℤ → Bytes → Bytes → Outcome (Unit {0})) → Outcome ℕ
try_main parsed download = parsed >>= λ options. if options.help then ok 0 else do
  thread_num ← options.thread_num
  enable_logging ← options.logging
  log_file ← options.log_file
  torrent_file ← specified options.torrent_file
  output_dir ← specified options.output_dir
  torrent_file_path ← torrent_file
  output_directory ← output_dir
  download thread_num torrent_file_path output_directory >> ok 0

-- `catch (std::exception& e)`; all exceptions of the program are of that type.
abbrev pub caught : Outcome ℕ → Outcome ℕ
caught (ok code) = ok code
caught (throws e) = ok 1
caught undefined = undefined
caught aborted = aborted

-- `main`.
unfoldable pub main : Outcome Options → (ℤ → Bytes → Bytes → Outcome (Unit {0})) → Outcome ℕ
unfolding try_main
main parsed download = caught (try_main parsed download)
