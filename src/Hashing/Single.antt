-- ===== src/Hashing/Single.antt =====
-- The hashes of a torrent of a single file.
use ufo_torrent.Common.{
  ℕ, zero, suc, ◌+◌, ◌-◌, ◌<◌, Bool, true, false, ◌||◌, List, [], ◌∷◌, ◌++◌, append-nil,
  append_assoc, Bytes, some, ltb, ◌==◌, if◌then◌else◌, length, take, drop, ok, ◌≡◌, refl, ap, ◌∙◌,
  inl, inr, arith, Bool-cases, beq_refl, length-take, length-drop, take-append, take-all,
}
use ufo_torrent.Hashing.{HashState, hash_round, hash_file, hash_files, last_path, create_hash}
use ufo_torrent.PieceManager.State.{overlay}

-- The bytes in parts of `size`, and then what is left, which may be nothing.
abbrev pub parts : ℕ → ℕ → Bytes → List Bytes
parts zero size bs = []
parts (suc fuel) size bs =
    let rest = parts fuel size (drop size bs) in
    if ltb (length bs) size then bs ∷ [] else take size bs ∷ rest

-- The hashes of the parts, one after another.
abbrev pub hashes : (Bytes → Bytes) → List Bytes → Bytes
hashes sha1 [] = []
hashes sha1 (p ∷ ps) = sha1 p ++ hashes sha1 ps

take-overlay : (got buffer : Bytes) → take (length got) (overlay 0 got buffer) ≡ got
unfolding overlay
take-overlay [] buffer = refl
take-overlay (b ∷ bs) buffer = ap (◌∷◌ b) (take-append (length bs) bs _ refl)

module _ (sha1 : Bytes → Bytes) (size : ℕ) (positive : 0 < size) where
  -- A round that fills the buffer from its start, or that ends the last file, hashes what it has read.
  hash_round_full :
      (at_end : Bool) (got : Bytes) (h : HashState)
      → h.buffer_read ≡ 0
      → (length got == size || at_end) ≡ true
      → ((hash_round sha1 size at_end got h).pieces ≡ h.pieces ++ sha1 got)
        × ((hash_round sha1 size at_end got h).buffer_read ≡ 0)
  unfolding hash_round
  hash_round_full at_end got h empty full =
      let sum : 0 + length got ≡ length got = omega arith in
      (
        rw (empty, hash_round, sum, full) (rw (take-overlay got h.buffer) refl),
        rw (empty, hash_round, sum, full) refl,
      )

  hash_file-hashes :
      (rounds : ℕ) (bs : Bytes) (h : HashState)
      → length bs < rounds
      → h.buffer_read ≡ 0
      → (hash_file sha1 size rounds true bs h).pieces
        ≡ h.pieces ++ hashes sha1 (parts rounds size bs)
  unfolding hash_file
  hash_file-hashes zero bs h enough empty = absurd (omega arith)
  hash_file-hashes (suc rounds) bs h enough empty =
      let whole : size - h.buffer_read ≡ size = omega (arith, empty) in
      elim (Bool-cases (ltb (length bs) size)) [
        | inl short ↦
            let all_read = take-all size bs (ground (arith, short)) in
            let last = hash_round_full true bs h empty (ground arith) in
            rw (whole, short, all_read) (rw append-nil last.0)
        | inr long ↦
            let got = take size bs in
            let filled : length got ≡ size = ground (arith, length-take size bs, long) in
            let full = hash_round_full false got h empty (ground (arith, filled)) in
            let more =
              hash_file-hashes rounds (drop size bs) (hash_round sha1 size false got h)
                (ground (arith, length-drop size bs, long)) full.1 in
            rw (whole, long)
              (more
                ∙ ap (λ (p : Bytes). p ++ hashes sha1 (parts rounds size (drop size bs))) full.0
                ∙ append_assoc h.pieces (sha1 got) (hashes sha1 (parts rounds size (drop size bs))))
      ]

  -- For a single file, `createHash` hashes the parts of the given size one after another and then the rest of the file: also where the file ends with a whole part and nothing is left.
  pub create_hash-hashes :
      (path content : Bytes)
      → create_hash sha1 size ((path, some content) ∷ [])
        ≡ ok (hashes sha1 (parts (length content + 1) size content))
  unfolding create_hash hash_files last_path
  create_hash-hashes path content =
      rw (beq_refl path)
        (ap ok (hash_file-hashes (length content + 1) content _ (omega arith) refl))
