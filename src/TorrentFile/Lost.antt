-- ===== src/TorrentFile/Lost.antt =====
-- What the constructor of the piece manager makes of a torrent file that was read.
use ufo_torrent.Common.{
  ℕ, zero, suc, Bool, true, false, not, ◌&&◌, List, [], ◌∷◌, All, Option, none, some, ◌==◌,
  is_empty, Outcome, ok, throws, undefined, aborted, ◌≡◌, refl, ap, arith, Returns, Returns-ok,
  Returns-bind, Returns-after, Returns-imp,
}
use ufo_torrent.Bencode.{Value}
use ufo_torrent.TorrentFile.{TorrentFile, TorrentFileInfo}
use ufo_torrent.TorrentFile.Parse.{parse_torrent_file}
use ufo_torrent.TorrentFile.Lengths.{NoInt, IsUnset, AllUnset, parse_torrent_file-AllUnset}
use ufo_torrent.PieceManager.State.{PieceManager}
use ufo_torrent.PieceManager.Setup.{
  new_manager, get_total_file_size, sum_lengths, initiate_pieces, create_file, read_piece_length,
  split_piece_hashes,
}

-- The output file has failed, and nothing was written to it.
abbrev pub IsFailed : PieceManager → Type 0
IsFailed m = (m.downloaded_file.failed ≡ true) × (m.downloaded_file.content ≡ [])

-- What the constructor makes of a torrent file that sets no length of a file. With files in it, or without a piece length, its behaviour is undefined; without files, and with a piece length, it returns with an output file that has failed and holds nothing. A piece length of zero is undefined too where there are pieces.
abbrev pub IsLost : List TorrentFileInfo → Option ℕ → Outcome PieceManager → Type 0
IsLost (f ∷ fs) n o = o ≡ undefined
IsLost [] none o = o ≡ undefined
IsLost [] (some zero) o = Returns IsFailed o
IsLost [] (some (suc n)) o = (m : PieceManager) × (o ≡ ok m) × IsFailed m

abbrev is_ok : Outcome PieceManager → Bool
is_ok (ok m) = true
is_ok _ = false

is_ok-Returns :
    (P : PieceManager → Type 0) (o : Outcome PieceManager)
    → is_ok o ≡ true
    → Returns P o
    → (m : PieceManager) × (o ≡ ok m) × P m
is_ok-Returns P (ok m) e h = (m, refl, h)
is_ok-Returns P (throws x) e h = cc
is_ok-Returns P undefined e h = cc
is_ok-Returns P aborted e h = cc

abbrev piece_length_or : Option ℕ → Outcome ℕ
piece_length_or none = undefined
piece_length_or (some n) = ok n

module _ (opens : Bool) (t : TorrentFile) (maximum_connections now : ℕ) where
  read_none : t.info.piece_length ≡ none → read_piece_length t ≡ undefined
  unfolding read_piece_length
  read_none k = ap piece_length_or k

  read_some : (n : ℕ) → t.info.piece_length ≡ some n → read_piece_length t ≡ ok n
  unfolding read_piece_length
  read_some n k = ap piece_length_or k

  total_unset :
      {f : TorrentFileInfo} {fs : List TorrentFileInfo}
      → t.info.files ≡ f ∷ fs
      → IsUnset f
      → get_total_file_size t ≡ undefined
  unfolding get_total_file_size sum_lengths
  total_unset e h = simp (e, h) refl

  total_zero : t.info.files ≡ [] → get_total_file_size t ≡ ok 0
  unfolding get_total_file_size sum_lengths
  total_zero e = simp (e) refl

  new_manager-none :
      t.info.piece_length ≡ none → new_manager opens t maximum_connections now ≡ undefined
  unfolding new_manager
  new_manager-none k = rw (read_none k, new_manager) refl

  new_manager-files :
      {f : TorrentFileInfo} {fs : List TorrentFileInfo} (n : ℕ)
      → t.info.piece_length ≡ some n
      → t.info.files ≡ f ∷ fs
      → IsUnset f
      → new_manager opens t maximum_connections now ≡ undefined
  unfolding new_manager
  new_manager-files n k e h = rw (read_some n k, total_unset e h, new_manager) refl

  new_manager-empty :
      t.info.files ≡ [] → Returns IsFailed (new_manager opens t maximum_connections now)
  unfolding new_manager create_file
  new_manager-empty e = Returns-after IsFailed (read_piece_length t) _ λ n.
      Returns-bind (λ (total : ℕ). total ≡ 0) IsFailed (get_total_file_size t) _
        (rw (total_zero e) refl)
        λ total zero_total.
          Returns-after IsFailed (initiate_pieces total n (split_piece_hashes t.info.pieces)) _
            (λ ps. rw zero_total (refl, refl))

  new_manager-ok :
      (n : ℕ)
      → t.info.piece_length ≡ some (suc n)
      → t.info.files ≡ []
      → is_ok (new_manager opens t maximum_connections now) ≡ true
  unfolding new_manager initiate_pieces
  new_manager-ok n k e =
      let positive : (not (is_empty (split_piece_hashes t.info.pieces)) && suc n == 0) ≡ false =
        ground arith in
      rw (read_some (suc n) k, total_zero e, new_manager, initiate_pieces, positive) refl

  new_manager-IsLost :
      (fs : List TorrentFileInfo) (n : Option ℕ)
      → t.info.files ≡ fs
      → t.info.piece_length ≡ n
      → All IsUnset fs
      → IsLost fs n (new_manager opens t maximum_connections now)
  new_manager-IsLost (f ∷ fs) none e k h = new_manager-none k
  new_manager-IsLost (f ∷ fs) (some n) e k h = new_manager-files n k e h.0
  new_manager-IsLost [] none e k h = new_manager-none k
  new_manager-IsLost [] (some zero) e k h = new_manager-empty e
  new_manager-IsLost [] (some (suc n)) e k h =
      is_ok-Returns IsFailed (new_manager opens t maximum_connections now) (new_manager-ok n k e)
        (new_manager-empty e)

-- A torrent that is parsed from a value without an `int`, as the decoder gives it, is lost for the constructor of the piece manager: with files in it, or without a piece length, the behaviour is undefined; without files, as a torrent of a single file is, the constructor with a positive piece length returns a manager whose output file has failed and holds nothing, and with a piece length of zero it returns none with a working file.
pub parse_torrent_file-failed :
    (v : Value) (opens : Bool) (t : TorrentFile) (maximum_connections now : ℕ)
    → NoInt v
    → parse_torrent_file v ≡ ok t
    → IsLost t.info.files t.info.piece_length (new_manager opens t maximum_connections now)
parse_torrent_file-failed v opens t maximum_connections now h e =
    new_manager-IsLost opens t maximum_connections now t.info.files t.info.piece_length refl refl
      (Returns-ok AllUnset (parse_torrent_file v) (parse_torrent_file-AllUnset v h) e)

-- So no manager of such a torrent has a working output file.
IsLost-failed :
    (fs : List TorrentFileInfo) (n : Option ℕ) (o : Outcome PieceManager)
    → IsLost fs n o
    → Returns (λ m. m.downloaded_file.failed ≡ true) o
IsLost-failed (f ∷ fs) n o h = rw h tt
IsLost-failed [] none o h = rw h tt
IsLost-failed [] (some zero) o h =
    Returns-imp IsFailed (λ m. m.downloaded_file.failed ≡ true) o h (λ m k. k.0)
IsLost-failed [] (some (suc n)) o (m, e, h) = rw e (h.0)

pub new_manager-failed :
    (v : Value) (opens : Bool) (t : TorrentFile) (maximum_connections now : ℕ)
    → NoInt v
    → parse_torrent_file v ≡ ok t
    → Returns (λ m. m.downloaded_file.failed ≡ true) (new_manager opens t maximum_connections now)
new_manager-failed v opens t maximum_connections now h e =
    IsLost-failed t.info.files t.info.piece_length (new_manager opens t maximum_connections now)
      (parse_torrent_file-failed v opens t maximum_connections now h e)
