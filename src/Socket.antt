-- ===== src/Socket.antt =====
-- src/network_part/connect.cpp: `sendData` and `receiveData` over a socket. What the operating
-- system delivers is a list of events; Connect is the rest of the file.
pub mod Framing
pub mod Connect
use ufo_torrent.Common.{
  [], ℕ, zero, suc, ◌+◌, ◌-◌, ◌*◌, ◌^◌, List, ◌∷◌, ◌++◌, Bytes, ltb, ◌==◌, if◌then◌else◌, length,
  take, drop, Exception, runtime_error, length_error,
}

-- What the next calls of `recv` meet: bytes that are there to be read (one at least), the end of
-- the stream, or an error.
pub data Event : Type 0 where
  chunk : ℕ → Bytes → Event
  closed failed : Event

abbrev pub Input : Type 0
Input = List Event

-- The outcome of a read: an input that ends before the read does leaves the caller waiting.
pub data Received {ℓ} (A : Type ℓ) : Type ℓ where
  got : A → Input → Received A
  threw : Exception → Received A
  waits : Received A

infixl 5 ◌>>=◌
abbrev pub ◌>>=◌ {ℓ κ} :
    {A : Type ℓ} {B : Type κ} → Received A → (A → Input → Received B) → Received B
got a i >>= f = f a i
threw e >>= f = threw e
waits >>= f = waits

-- The input when `n` bytes of a chunk have been taken.
abbrev pub put_back : Bytes → Input → Input
put_back [] i = i
put_back (b ∷ bs) i = chunk b bs ∷ i

-- `recv` of at most `n` bytes, with the error checks that follow each call of it.
unfoldable pub recv : ℕ → Input → Received Bytes
recv n [] = waits
recv n (chunk b bs ∷ i) = got (take n (b ∷ bs)) (put_back (drop n (b ∷ bs)) i)
recv n (closed ∷ i) = threw runtime_error
recv n (failed ∷ i) = threw runtime_error

-- The loop that fills the buffer: each round reads what is there, up to the bytes that lack.
-- A round takes a byte at least, so as many rounds as bytes are enough.
unfoldable pub receive_loop : ℕ → ℕ → Bytes → Input → Received Bytes
unfolding recv
receive_loop rounds zero total i = got total i
receive_loop zero (suc lacking) total i = waits
receive_loop (suc rounds) (suc lacking) total i =
    let more = recv (suc lacking) i >>= λ bytes i'.
    receive_loop rounds (suc lacking - length bytes) (total ++ bytes) i' in
    more

-- The buffer of the expected size; a size that is negative as an `int` throws.
unfoldable pub receive_body : ℕ → Input → Received Bytes
unfolding receive_loop
receive_body size i = if ltb size (2 ^ 31) then receive_loop size size [] i else threw length_error

-- `ntohl` of the four bytes of the length prefix.
unfoldable pub length_prefix : Bytes → ℕ
length_prefix [] = 0
length_prefix (a ∷ []) = 0
length_prefix (a ∷ b ∷ []) = 0
length_prefix (a ∷ b ∷ c ∷ []) = 0
length_prefix (a ∷ b ∷ c ∷ d ∷ _) = a * 2 ^ 24 + b * 2 ^ 16 + c * 2 ^ 8 + d

-- What follows the read of the prefix: a short one throws, and zero is a keep-alive message.
unfoldable pub receive_prefixed : Bytes → Input → Received Bytes
unfolding receive_body length_prefix
receive_prefixed prefix i =
    if ltb (length prefix) 4
    then threw runtime_error
    else if length_prefix prefix == 0
    then got [] i
    else receive_body (length_prefix prefix) i

-- `receiveData` on an open socket; an expected size of zero reads the length prefix first.
unfoldable pub receive_data : ℕ → Input → Received Bytes
unfolding receive_prefixed
receive_data zero i = recv 4 i >>= receive_prefixed
receive_data (suc size) i = receive_body (suc size) i
