-- ===== src/CommandLine/Exits.antt =====
-- What the program returns to its caller.
use ufo_torrent.Common.{
  ℕ, ◌≤◌, Bool, false, Bytes, Option, some, Outcome, ok, throws, undefined, aborted, Exception, ◌≡◌,
  refl, arith, Returns, Returns-after, Returns-if,
}
use ufo_torrent.Common.Int.{ℤ}
use ufo_torrent.Client.{Download}
use ufo_torrent.CommandLine.{Options, download_file, try_main, specified, caught, main}

-- A run ends with 0 or 1, never by an exception.
abbrev pub IsExit : Outcome ℕ → Type 0
IsExit (ok code) = code ≤ 1
IsExit (throws e) = ⊥
IsExit undefined = Unit
IsExit aborted = Unit

try_main-zero :
    (parsed : Outcome Options) (download : ℤ → Bytes → Bytes → Outcome (Unit {0}))
    → Returns (λ code. code ≡ 0) (try_main parsed download)
unfolding try_main
try_main-zero parsed download = Returns-after IsZero parsed _ (λ options.
    Returns-if IsZero options.help _ _ refl (
      Returns-after IsZero options.thread_num _ (λ threads.
        Returns-after IsZero options.logging _ (λ logging.
          Returns-after IsZero options.log_file _ (λ log_file.
            Returns-after IsZero (specified options.torrent_file) _ (λ torrent_file.
              Returns-after IsZero (specified options.output_dir) _ (λ output_dir.
                Returns-after IsZero torrent_file _ (λ path.
                  Returns-after IsZero output_dir _ (λ directory.
                    Returns-after IsZero (download threads path directory) _ (λ _. refl))))))))))
  where
    IsZero : ℕ → Type 0
    IsZero code = code ≡ 0

-- `main` lets no exception out, and returns 0 or 1.
pub main-IsExit :
    (parsed : Outcome Options) (download : ℤ → Bytes → Bytes → Outcome (Unit {0}))
    → IsExit (main parsed download)
unfolding main
main-IsExit parsed download = exit (try_main parsed download) (try_main-zero parsed download)
  where
    exit : (o : Outcome ℕ) → Returns (λ code. code ≡ 0) o → IsExit (caught o)
    exit (ok code) h = omega (arith, h)
    exit (throws e) h = omega arith
    exit undefined h = tt
    exit aborted h = tt

-- An exception of the loop of the download does not reach the handler of `main`: it ends the program.
pub main_unjoined :
    (options : Options) (threads : ℤ) (logging : Bool) (log_file path directory : Bytes)
    (prepared : ℤ → Bytes → Bytes → Outcome (Option Download)) (run : Download → Outcome (Unit {0}))
    (d : Download) (e : Exception)
    → options.help ≡ false
    → options.thread_num ≡ ok threads
    → options.logging ≡ ok logging
    → options.log_file ≡ ok log_file
    → options.torrent_file ≡ some (ok path)
    → options.output_dir ≡ some (ok directory)
    → prepared threads path directory ≡ ok (some d)
    → run d ≡ throws e
    → main (ok options) (λ n p o. download_file (prepared n p o) run) ≡ aborted
unfolding main try_main download_file
main_unjoined options threads logging log_file path directory prepared run d e h t l f p o made
      thrown =
    simp (h, t, l, f, p, o, made, thrown) refl
