-- ===== src/Socket/Framing.antt =====
-- Messages come out of `receiveData` whole, however the stream delivers their bytes.
use ufo_torrent.Common.{
  ℕ, zero, suc, ◌+◌, ◌-◌, ◌%◌, ◌^◌, ◌≤◌, ◌<◌, true, false, [], ◌∷◌, ◌++◌, append-nil, append_assoc,
  Bytes, ltb, ◌==◌, length, get_or, take, drop, runtime_error, ◌≡◌, refl, ap, ◌∙◌, arith, lt→ltb,
  length-append, length-take, length-drop, take-append, drop-append,
}
use ufo_torrent.Message.{message, message_string, be32}
use ufo_torrent.Socket.{
  chunk, closed, failed, Input, Received, got, threw, put_back, recv, receive_loop, receive_body,
  receive_prefixed, receive_data, length_prefix,
}

-- The bytes that are there to be read before the stream ends.
abbrev pub stream : Input → Bytes
stream [] = []
stream (chunk b bs ∷ i) = (b ∷ bs) ++ stream i
stream (closed ∷ i) = []
stream (failed ∷ i) = []

stream-put_back : (bs : Bytes) (i : Input) → stream (put_back bs i) ≡ bs ++ stream i
stream-put_back [] i = refl
stream-put_back (b ∷ bs) i = refl

take-split :
    (n : ℕ) (xs ys : Bytes)
    → take n (xs ++ ys) ≡ take n xs ++ take (n - length (take n xs)) (drop n xs ++ ys)
take-split zero xs ys = refl
take-split (suc n) [] ys = let e : suc n - 0 ≡ suc n = omega arith in rw e refl
take-split (suc n) (x ∷ xs) ys =
    let e : suc n - suc (length (take n xs)) ≡ n - length (take n xs) = omega arith in
    rw e (ap (◌∷◌ x) (take-split n xs ys))

drop-split :
    (n : ℕ) (xs ys : Bytes) → drop n (xs ++ ys) ≡ drop (n - length (take n xs)) (drop n xs ++ ys)
drop-split zero xs ys = refl
drop-split (suc n) [] ys = let e : suc n - 0 ≡ suc n = omega arith in rw e refl
drop-split (suc n) (x ∷ xs) ys =
    let e : suc n - suc (length (take n xs)) ≡ n - length (take n xs) = omega arith in
    rw e (drop-split n xs ys)

-- The read gives the bytes and leaves the rest of the stream.
abbrev pub Reads : Received Bytes → Bytes → Bytes → Type 0
Reads r bytes rest = (i : Input) × (r ≡ got bytes i) × (stream i ≡ rest)

-- One round of the loop.
receive_loop_step :
    (rounds lacking : ℕ) (total : Bytes) (b : ℕ) (bs : Bytes) (i : Input)
    → receive_loop (suc rounds) (suc lacking) total (chunk b bs ∷ i)
      ≡ receive_loop rounds
          (lacking - length (take lacking bs))
          (total ++ (b ∷ take lacking bs))
          (put_back (drop lacking bs) i)
unfolding receive_loop recv
receive_loop_step rounds lacking total b bs i =
    let e : suc lacking - suc (length (take lacking bs)) ≡ lacking - length (take lacking bs) =
      omega arith in
    ap (λ k. receive_loop rounds k (total ++ (b ∷ take lacking bs)) (put_back (drop lacking bs) i))
      e

-- Enough rounds and enough bytes fill the buffer.
receive_loop-Reads :
    (rounds lacking : ℕ) (total : Bytes) (i : Input)
    → lacking ≤ rounds
    → lacking ≤ length (stream i)
    → Reads
        (receive_loop rounds lacking total i)
        (total ++ take lacking (stream i))
        (drop lacking (stream i))
unfolding receive_loop recv
receive_loop-Reads rounds zero total i h k = (i, rw append-nil, refl)
receive_loop-Reads zero (suc lacking) total i h k = absurd (omega arith)
receive_loop-Reads (suc rounds) (suc lacking) total [] h k = absurd (omega arith)
receive_loop-Reads (suc rounds) (suc lacking) total (closed ∷ i) h k = absurd (omega arith)
receive_loop-Reads (suc rounds) (suc lacking) total (failed ∷ i) h k = absurd (omega arith)
receive_loop-Reads (suc rounds) (suc lacking) total (chunk b bs ∷ i) h k =
    let taken = take lacking bs in
    let left = drop lacking bs in
    let rest =
      receive_loop-Reads rounds (lacking - length taken) (total ++ (b ∷ taken)) (put_back left i)
        (omega arith)
        (rw (stream-put_back left i, length-append left (stream i))
          (omega (
            arith,
            length-append bs (stream i),
            length-take lacking bs,
            length-drop lacking bs,
          ))) in
    let whole = append_assoc total (b ∷ taken) (take (lacking - length taken) (left ++ stream i)) in
    rw
      (
        receive_loop_step rounds lacking total b bs i,
        take-split lacking bs (stream i),
        drop-split lacking bs (stream i),
      )
      (rw (stream-put_back left i, whole) at rest)

length_prefix-be32 : (n : ℕ) (rest : Bytes) → n < 2 ^ 32 → length_prefix (be32 n ++ rest) ≡ n
unfolding length_prefix be32
length_prefix-be32 n rest h = omega arith

receive_body-Reads :
    (bytes rest : Bytes) (i : Input)
    → length bytes < 2 ^ 31
    → stream i ≡ bytes ++ rest
    → Reads (receive_body (length bytes) i) bytes rest
unfolding receive_body
receive_body-Reads bytes rest i h s =
    let fits : ltb (length bytes) (2 ^ 31) ≡ true = lt→ltb _ _ h in
    let loop =
      receive_loop-Reads (length bytes) (length bytes) [] i (omega arith)
        (rw s (omega (arith, length-append bytes rest))) in
    rw (fits, receive_body)
      (rw
        (s, take-append (length bytes) bytes rest refl, drop-append (length bytes) bytes rest refl)
        at loop)

prefix_value :
    (b c d e n : ℕ)
    → ◌≡◌ {A = Bytes} (b ∷ c ∷ d ∷ e ∷ []) (be32 ((n + 1) % 2 ^ 32))
    → n + 1 < 2 ^ 31
    → length_prefix (b ∷ c ∷ d ∷ e ∷ []) ≡ suc n
unfolding length_prefix be32
prefix_value b c d e n s h =
    let at = λ (i : ℕ). ap (λ (l : Bytes). get_or l i 0) s in omega (arith, at 0, at 1, at 2, at 3)

prefixed :
    (b c d e n : ℕ) (i : Input)
    → length_prefix (b ∷ c ∷ d ∷ e ∷ []) ≡ suc n
    → receive_prefixed (b ∷ c ∷ d ∷ e ∷ []) i ≡ receive_body (suc n) i
unfolding receive_prefixed
prefixed b c d e n i h =
    let positive : (suc n == 0) ≡ false = ground arith in rw (h, receive_prefixed, positive) refl

-- A message whose wire form stands next in the stream is read whole, identifier and payload, and the stream goes on behind it: whatever the sizes of the pieces in which its bytes arrive, as long as the length prefix arrives in one.
pub receive_data-message_string :
    (id : ℕ) (payload rest : Bytes) (b : ℕ) (bs : Bytes) (i : Input)
    → length payload + 1 < 2 ^ 31
    → 3 ≤ length bs
    → stream (chunk b bs ∷ i) ≡ message_string (message id payload) ++ rest
    → Reads (receive_data 0 (chunk b bs ∷ i)) (id ∷ payload) rest
unfolding receive_data receive_prefixed recv message_string message
receive_data-message_string id payload rest b [] i h k s = absurd (omega arith)
receive_data-message_string id payload rest b (c ∷ []) i h k s = absurd (omega arith)
receive_data-message_string id payload rest b (c ∷ d ∷ []) i h k s = absurd (omega arith)
receive_data-message_string id payload rest b (c ∷ d ∷ e ∷ more) i h k s =
    let n = (length payload + 1) % 2 ^ 32 in
    let prefix : length_prefix (b ∷ c ∷ d ∷ e ∷ []) ≡ suc (length payload) =
      prefix_value b c d e (length payload) (ap (λ (l : Bytes). take 4 l) s) (omega arith) in
    let body : stream (put_back more i) ≡ (id ∷ payload) ++ rest =
      stream-put_back more i ∙ ap (λ (l : Bytes). drop 4 l) s in
    rw (prefixed b c d e (length payload) (put_back more i) prefix)
      (receive_body-Reads (id ∷ payload) rest (put_back more i) (omega arith) body)

-- A length prefix that arrives in part makes the read throw.
pub receive_data_short_prefix :
    (b : ℕ) (bs : Bytes) (i : Input)
    → length bs < 3
    → receive_data 0 (chunk b bs ∷ i) ≡ threw runtime_error
unfolding receive_data receive_prefixed recv
receive_data_short_prefix b bs i h = ground (arith, length-take 3 bs)
