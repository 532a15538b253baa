-- ===== src/Socket/Connect.antt =====
-- `setSocketBlocking` and `createConnection` of src/network_part/connect.cpp over the calls of the operating
-- system, as an interface: what each call answers is a field. The bit of O_NONBLOCK is that of Linux.
pub mod Opened
use ufo_torrent.Common.{
  ℕ, ◌+◌, ◌-◌, ◌/◌, ◌%◌, ◌^◌, Bool, true, false, not, [], Bytes, Option, none, some, ◌==◌,
  if◌then◌else◌, Outcome, ok, throws, runtime_error,
}
use ufo_torrent.Common.Int.{ℤ, pos, negsuc, to_u64}

-- A call of `fcntl` in `setSocketBlocking` is known by the argument `blocking` of that call.
pub record System : Type 0 where
  pub socket : ℤ
  pub new_flags : ℕ
  pub is_address : Bytes → Bool
  pub gets_flags : Bool → Bool
  pub sets_flags : Bool → Bool
  pub is_writable : Bytes → ℕ → Bool
  pub so_error : Bytes → ℕ → ℤ

-- The descriptor that `socket` gives.
pub record Descriptor : Type 0 where
  pub number : ℤ
  pub flags : ℕ
  pub is_open : Bool

abbrev pub is_negative : ℤ → Bool
is_negative (pos n) = false
is_negative (negsuc n) = true

abbrev pub is_zero : ℤ → Bool
is_zero (pos n) = n == 0
is_zero (negsuc n) = false

-- Whether O_NONBLOCK is in the flags.
abbrev pub is_nonblock : ℕ → Bool
is_nonblock flags = flags / 2 ^ 11 % 2 == 1

-- `flags & ~O_NONBLOCK` and `flags | O_NONBLOCK`.
unfoldable pub with_blocking : Bool → ℕ → ℕ
with_blocking true flags = if is_nonblock flags then flags - 2 ^ 11 else flags
with_blocking false flags = if is_nonblock flags then flags else flags + 2 ^ 11

-- `setSocketBlocking`.
unfoldable pub set_socket_blocking : System → Bool → Descriptor → Descriptor × Bool
unfolding with_blocking
set_socket_blocking os blocking d =
    if is_negative d.number
    then (d, false)
    else if not (os.gets_flags blocking)
    then (d, false)
    else if not (os.sets_flags blocking)
    then (d, false)
    else (record d { flags = with_blocking blocking d.flags }, true)

-- `htons` of the port, which takes 16 bits.
unfoldable pub port_number : ℤ → ℕ
port_number port = to_u64 port % 2 ^ 16

-- The descriptor, if there is one, and what the call ends in.
abbrev pub Opening : Type 0
Opening = Option Descriptor × Outcome ℤ

-- `close`, and the exception at the end.
unfoldable pub give_up : Descriptor → Opening
give_up d = (some (record d { is_open = false }), throws runtime_error)

-- The connection is made: the socket blocks again.
unfoldable pub restored : Descriptor × Bool → Opening
restored (d, true) = (some d, ok d.number)
restored (d, false) = (some d, throws runtime_error)

-- `connect`, and the wait until it has come to its end.
unfoldable pub await_connect : System → Bytes → ℕ → Descriptor → Opening
unfolding give_up restored set_socket_blocking
await_connect os ip port d =
    if not (os.is_writable ip port)
    then give_up d
    else if is_zero (os.so_error ip port)
    then restored (set_socket_blocking os true d)
    else give_up d

-- What follows the change to a socket that does not block.
unfoldable pub unblocked : System → Bytes → ℕ → Descriptor × Bool → Opening
unfolding await_connect
unblocked os ip port (d, true) = await_connect os ip port d
unblocked os ip port (d, false) = (some d, throws runtime_error)

-- `createConnection`.
unfoldable pub create_connection : System → Bytes → ℤ → Opening
unfolding unblocked set_socket_blocking port_number
create_connection os ip port =
    if is_negative os.socket
    then (none, throws runtime_error)
    else let d : Descriptor = record { number = os.socket; flags = os.new_flags; is_open = true } in
      if not (os.is_address ip)
      then (some d, throws runtime_error)
      else unblocked os ip (port_number port) (set_socket_blocking os false d)
