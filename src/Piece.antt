-- ===== src/Piece.antt =====
-- src/network_part/Piece.cpp with includes/network_part/Piece.h and Block.h: a piece of the
-- torrent as a row of blocks. The SHA-1 function, a third-party source, is a parameter.
use ufo_torrent.Common.{
  ℕ, Bool, true, false, List, [], ◌∷◌, ◌++◌, map, all, Bytes, Option, none, some, ◌==◌, beq,
  if◌then◌else◌, Outcome, ok, throws, aborted, runtime_error, ◌>>=◌,
}
use ufo_torrent.Utils.{hex_decode}

pub data BlockStatus : Type 0 where
  missing pending retrieved : BlockStatus

-- `Block`; its field `data` is called `content` here.
pub record Block : Type 0 where
  pub piece : ℕ
  pub offset : ℕ
  pub length : ℕ
  pub status : BlockStatus
  pub content : Bytes

pub record Piece : Type 0 where
  pub index : ℕ
  pub hash_value : Bytes
  pub blocks : List Block

abbrev pub set_status : BlockStatus → Block → Block
set_status s b = record b { status = s }

unfoldable pub reset : Piece → Piece
reset p = record p { blocks = map (set_status missing) p.blocks }

abbrev pub is_missing : Block → Bool
is_missing b = elim b.status [ missing ↦ true | pending ↦ false | retrieved ↦ false ]

abbrev pub is_retrieved : Block → Bool
is_retrieved b = elim b.status [ missing ↦ false | pending ↦ false | retrieved ↦ true ]

-- The loop of `next_request`: the first missing block becomes pending and is returned.
unfoldable pub request_block : List Block → Option (Block × List Block)
request_block [] = none
request_block (b ∷ bs) =
    let rest = request_block bs in
    if is_missing b
    then some (set_status pending b, set_status pending b ∷ bs)
    else elim rest [ none ↦ none | some (c, cs) ↦ some (c, b ∷ cs) ]

-- `Piece::next_request`; the null pointer is `none`.
unfoldable pub next_request : Piece → Option (Block × Piece)
unfolding request_block
next_request p = elim (request_block p.blocks) [
  | none ↦ none
  | some (b, bs) ↦ some (b, record p { blocks = bs })
]

-- The loop of `block_received`: the first block at the offset takes the bytes.
unfoldable pub fill_block : ℕ → Bytes → List Block → Option (List Block)
fill_block offset content [] = none
fill_block offset content (b ∷ bs) =
    let rest = fill_block offset content bs in
    if b.offset == offset
    then some (record b { status = retrieved; content = content } ∷ bs)
    else elim rest [ none ↦ none | some cs ↦ some (b ∷ cs) ]

-- `Piece::block_received`.
unfoldable pub block_received : ℕ → Bytes → Piece → Outcome Piece
unfolding fill_block
block_received offset content p = elim (fill_block offset content p.blocks) [
  | none ↦ throws runtime_error
  | some bs ↦ ok (record p { blocks = bs })
]

-- `Piece::is_complete`.
unfoldable pub is_complete : Piece → Bool
is_complete p = all is_retrieved p.blocks

unfoldable pub contents : List Block → Bytes
contents [] = []
contents (b ∷ bs) = b.content ++ contents bs

-- `Piece::data`, which asserts that the piece is complete.
unfoldable pub piece_data : Piece → Outcome Bytes
unfolding is_complete contents
piece_data p = if is_complete p then ok (contents p.blocks) else aborted

-- `Piece::is_hash_matching`.
unfoldable pub is_hash_matching : (Bytes → Bytes) → Piece → Outcome Bool
unfolding piece_data
is_hash_matching sha1 p = do bytes ← piece_data p; ok (beq (hex_decode (sha1 bytes)) p.hash_value)
