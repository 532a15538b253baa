-- ===== src/PieceManager/Files.antt =====
-- Where the data of the pieces stands in the output file.
use ufo_torrent.Common.{
  ℕ, zero, suc, ◌+◌, ◌-◌, ◌*◌, ◌≤◌, ◌<◌, false, ◌&&◌, [], ◌∷◌, ◌++◌, Bytes, ltb, ◌==◌,
  if◌then◌else◌, length, get_or, take, drop, replicate, ok, ◌≡◌, refl, ap, ◌∙◌, inl, inr, arith,
  Bool-cases, ==_iff, length-append, length-take, length-replicate,
}
use ufo_torrent.Piece.{Piece, piece_data}
use ufo_torrent.PieceManager.State.{PieceManager, overlay, write_at}
use ufo_torrent.PieceManager.Receive.{write}

-- The bytes of the file from `position` on.
abbrev pub segment : ℕ → ℕ → Bytes → Bytes
segment position size content = take size (drop position content)

get_or-append :
    (xs ys : Bytes) (i : ℕ)
    → get_or (xs ++ ys) i 0
      ≡ (if ltb i (length xs) then get_or xs i 0 else get_or ys (i - length xs) 0)
get_or-append [] ys i = ground arith
get_or-append (x ∷ xs) ys zero = ground arith
get_or-append (x ∷ xs) ys (suc i) = ground (arith, get_or-append xs ys i)

get_or-drop : (n : ℕ) (xs : Bytes) (i : ℕ) → get_or (drop n xs) i 0 ≡ get_or xs (n + i) 0
get_or-drop zero xs i = ground arith
get_or-drop (suc n) [] i = refl
get_or-drop (suc n) (x ∷ xs) i =
    let e : suc n + i ≡ suc (n + i) = omega arith in rw e (get_or-drop n xs i)

get_or-take :
    (n : ℕ) (xs : Bytes) (i : ℕ) → get_or (take n xs) i 0 ≡ (if ltb i n then get_or xs i 0 else 0)
get_or-take zero xs i = ground arith
get_or-take (suc n) [] i = ground arith
get_or-take (suc n) (x ∷ xs) zero = ground arith
get_or-take (suc n) (x ∷ xs) (suc i) = ground (arith, get_or-take n xs i)

get_or-replicate : (n i : ℕ) → get_or {A = ℕ} (replicate n 0) i 0 ≡ 0
get_or-replicate zero i = refl
get_or-replicate (suc n) zero = refl
get_or-replicate (suc n) (suc i) = get_or-replicate n i

get_or_past : (xs : Bytes) (i : ℕ) → length xs ≤ i → get_or xs i 0 ≡ 0
get_or_past [] i h = refl
get_or_past (x ∷ xs) zero h = absurd (omega arith)
get_or_past (x ∷ xs) (suc i) h = get_or_past xs i (omega arith)

-- The file up to `position`, with zeros where it is shorter.
abbrev prefix : ℕ → Bytes → Bytes
prefix position content = take position (content ++ replicate (position - length content) 0)

length-prefix : (position : ℕ) (content : Bytes) → length (prefix position content) ≡ position
length-prefix position content = omega (
  arith,
  length-take position (content ++ replicate (position - length content) 0),
  length-append content (replicate (position - length content) 0),
  length-replicate {0} {A = ℕ} (position - length content) 0,
)

get_or-prefix :
    (position : ℕ) (content : Bytes) (i : ℕ)
    → i < position
    → get_or (prefix position content) i 0 ≡ get_or content i 0
get_or-prefix position content i h =
    let k = position - length content in
    ground (
      arith,
      get_or-take position (content ++ replicate k 0) i,
      get_or-append content (replicate k 0) i,
      get_or-replicate k (i - length content),
      get_or_past content i,
    )

sub_sub : (i a b : ℕ) → i - a - b ≡ i - (a + b)
sub_sub i a b = omega arith

get_or-rest :
    (n i : ℕ) (content : Bytes) → n ≤ i → get_or (drop n content) (i - n) 0 ≡ get_or content i 0
get_or-rest n i content h =
    let e : n + (i - n) ≡ i = omega arith in
    get_or-drop n content (i - n) ∙ ap (λ (k : ℕ). get_or content k 0) e

-- A byte of a file after a write: the new one inside the range of the write, and outside it what the file reads there before, a zero past its end.
pub get_or-overlay :
    (position i : ℕ) (bytes content : Bytes)
    → get_or (overlay position bytes content) i 0 ≡ (
        if ltb i position
        then get_or content i 0
        else if ltb i (position + length bytes)
        then get_or bytes (i - position) 0
        else get_or content i 0)
unfolding overlay
get_or-overlay position i [] content = ground arith
get_or-overlay position i (b ∷ bs) content =
    let rest = drop (position + length (b ∷ bs)) content in
    ground (
      arith,
      get_or-append (prefix position content) ((b ∷ bs) ++ rest) i,
      length-prefix position content,
      get_or-prefix position content i,
      get_or-append (b ∷ bs) rest (i - position),
      get_or-rest (position + length (b ∷ bs)) i content,
      sub_sub i position (length (b ∷ bs)),
    )

before_lt : (j i n k : ℕ) → k < n → j < i → j * n + k < i * n
before_lt j i n k h l = grind arith

after_le : (j i n k len : ℕ) → len ≤ n → i < j → i * n + len ≤ j * n + k
after_le j i n k len h l = grind arith

-- `write` puts the data of a piece at its index times the piece length, and leaves every byte of the other pieces' places alone, provided that the data are no longer than a piece and that the stream has not failed.
pub write_lem :
    (p : Piece) (m m' : PieceManager) (bytes : Bytes) (j k : ℕ)
    → piece_data p ≡ ok bytes
    → write p m ≡ ok m'
    → m.downloaded_file.failed ≡ false
    → length bytes ≤ m.piece_length
    → k < m.piece_length
    → get_or m'.downloaded_file.content (j * m.piece_length + k) 0 ≡ (
        if j == p.index && ltb k (length bytes)
        then get_or bytes k 0
        else get_or m.downloaded_file.content (j * m.piece_length + k) 0)
unfolding write write_at
write_lem p m m' bytes j k e w good fits inside =
    let size = m.piece_length in
    let old = m.downloaded_file.content in
    let new : m'.downloaded_file.content ≡ overlay (p.index * size) bytes old =
      ground (arith, e, w, good) in
    rw (new, get_or-overlay (p.index * size) (j * size + k) bytes old)
      (elim (Bool-cases (j == p.index)) [
        | inl same ↦
            let at : j * size ≡ p.index * size =
              ap (λ (t : ℕ). t * size) ((==_iff j p.index).0 same) in
            let shift : j * size + k - p.index * size ≡ k = omega (arith, at) in
            rw shift (ground (arith, same, at))
        | inr other ↦ ground (
          arith,
          other,
          before_lt j p.index size k inside,
          after_le j p.index size k (length bytes) fits,
        )
      ])
