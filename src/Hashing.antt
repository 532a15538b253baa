-- ===== src/Hashing.antt =====
-- src/hashing/createHash.cpp: the piece length, and the hashes of the pieces of some files. A file
-- that does not open is none; the SHA-1 function of boost is a parameter.
pub mod Blocks
pub mod Single
use ufo_torrent.Common.{
  ℕ, zero, suc, ◌+◌, ◌-◌, ◌*◌, ◌^◌, Bool, ◌&&◌, ◌||◌, List, [], ◌∷◌, ◌++◌, Bytes, Option, none,
  some, ltb, ◌==◌, beq, if◌then◌else◌, length, take, drop, replicate, Outcome, ok, throws,
  runtime_error, ◌>>=◌,
}
use ufo_torrent.PieceManager.State.{overlay}

-- `choosePieceLength`.
unfoldable pub choose_piece_length : ℕ → ℕ
choose_piece_length size =
    if ltb size (512 * 2 ^ 20)
    then 16 * 1024
    else if ltb size (1024 * 2 ^ 20)
    then 1024 * 1024
    else if ltb size (2 * 1024 * 2 ^ 20)
    then 4 * 2 ^ 20
    else if ltb size (10 * 1024 * 2 ^ 20)
    then 8 * 2 ^ 20
    else if ltb size (50 * 1024 * 2 ^ 20)
    then 16 * 2 ^ 20
    else 32 * 2 ^ 20

-- The state of `createHash`: the buffer, how much of it is filled, and the hashes so far.
pub record HashState : Type 0 where
  pub buffer : Bytes
  pub buffer_read : ℕ
  pub pieces : Bytes

module _ (sha1 : Bytes → Bytes) (chunk_size : ℕ) where
  -- What follows a read of some bytes: the hash is taken of as many bytes as this read gave.
  unfoldable pub hash_round : Bool → Bytes → HashState → HashState
  unfolding overlay
  hash_round at_end got h =
      let buffer = overlay h.buffer_read got h.buffer in
      let filled = h.buffer_read + length got in
      if filled == chunk_size || at_end
      then record {
        buffer = buffer;
        buffer_read = 0;
        pieces = h.pieces ++ sha1 (take (length got) buffer);
      }
      else record { buffer = buffer; buffer_read = filled; pieces = h.pieces }

  -- The loop over one file; a read that meets the end of the file is the last. A round before it
  -- takes a byte at least, so one round more than there are bytes is enough.
  unfoldable pub hash_file : ℕ → Bool → Bytes → HashState → HashState
  unfolding hash_round
  hash_file zero is_last rest h = h
  hash_file (suc rounds) is_last rest h =
      let asked = chunk_size - h.buffer_read in
      let at_end = ltb (length rest) asked in
      let h' = hash_round (at_end && is_last) (take asked rest) h in
      let more = hash_file rounds is_last (drop asked rest) h' in if at_end then h' else more

  -- The loop over the files, each with its path; `back` is the last path.
  unfoldable pub hash_files : Bytes → List (Bytes × Option Bytes) → HashState → Outcome HashState
  unfolding hash_file
  hash_files back [] h = ok h
  hash_files back ((path, none) ∷ files) h = throws runtime_error
  hash_files back ((path, some content) ∷ files) h =
      hash_files back files (hash_file (length content + 1) (beq path back) content h)

  unfoldable pub last_path : List (Bytes × Option Bytes) → Bytes
  last_path [] = []
  last_path ((path, content) ∷ []) = path
  last_path (file ∷ next ∷ files) = last_path (next ∷ files)

  -- `createHash`.
  unfoldable pub create_hash : List (Bytes × Option Bytes) → Outcome Bytes
  unfolding hash_files last_path
  create_hash files =
      hash_files (last_path files) files
        (record { buffer = replicate chunk_size 0; buffer_read = 0; pieces = [] })
      >>= λ h. ok h.pieces
