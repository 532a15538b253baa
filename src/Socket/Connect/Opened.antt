-- ===== src/Socket/Connect/Opened.antt =====
-- What `createConnection` leaves behind.
use ufo_torrent.Common.{
  ℕ, Bool, true, false, not, ◌&&◌, ◌||◌, Bytes, none, some, if◌then◌else◌, set, ok, throws,
  runtime_error, ◌≡◌, refl, sym, subst, inl, inr, arith, Bool-cases,
}
use ufo_torrent.Common.Int.{ℤ}
use ufo_torrent.Socket.Connect.{
  System, Opening, is_negative, is_zero, is_nonblock, with_blocking, set_socket_blocking,
  port_number, give_up, restored, await_connect, unblocked, create_connection,
}

-- The calls that `createConnection` makes before it connects work.
abbrev pub is_ready : System → Bytes → Bool
is_ready os ip = os.is_address ip && (os.gets_flags false && os.sets_flags false)

-- The peer takes the connection in time.
abbrev pub is_taken : System → Bytes → ℕ → Bool
is_taken os ip port = os.is_writable ip port && is_zero (os.so_error ip port)

abbrev pub can_block : System → Bool
can_block os = os.gets_flags true && os.sets_flags true

-- The whole behaviour, from what the calls answer.
abbrev pub described : System → Bytes → ℕ → Opening
described os ip port =
    if is_negative os.socket
    then (none, throws runtime_error)
    else if not (is_ready os ip)
    then (
      some (record { number = os.socket; flags = os.new_flags; is_open = true }),
      throws runtime_error,
    )
    else if not (is_taken os ip port)
    then (
      some (record {
        number = os.socket;
        flags = with_blocking false os.new_flags;
        is_open = false;
      }),
      throws runtime_error,
    )
    else if not (can_block os)
    then (
      some
          (record { number = os.socket; flags = with_blocking false os.new_flags; is_open = true }),
      throws runtime_error,
    )
    else (some (record { number = os.socket; flags = os.new_flags; is_open = true }), ok os.socket)

with_blocking-back :
    (flags : ℕ) → is_nonblock flags ≡ false → with_blocking true (with_blocking false flags) ≡ flags
unfolding with_blocking
with_blocking-back flags h = rw h (ground (arith, h))

-- Where a new socket blocks, `createConnection` does what is described.
create_connection_cases :
    (os : System) (ip : Bytes) (port : ℤ)
    → is_nonblock os.new_flags ≡ false
    → create_connection os ip port ≡ described os ip (port_number port)
unfolding create_connection unblocked await_connect set_socket_blocking give_up restored
create_connection_cases os ip port h =
    let back = with_blocking-back os.new_flags h in
    elim (Bool-cases (is_negative os.socket)) [
      | inl refused ↦ simp refused refl
      | inr given ↦ elim (Bool-cases (os.is_address ip)) [
        | inr wrong ↦ simp (given, wrong) refl
        | inl right ↦ elim (Bool-cases (os.gets_flags false)) [
          | inr no_get ↦ simp (given, right, no_get) refl
          | inl get ↦ elim (Bool-cases (os.sets_flags false)) [
            | inr no_set ↦ simp (given, right, get, no_set) refl
            | inl set ↦ elim (Bool-cases (os.is_writable ip (port_number port))) [
              | inr late ↦ simp (given, right, get, set, late) refl
              | inl writable ↦ elim (Bool-cases (is_zero (os.so_error ip (port_number port)))) [
                | inr failed ↦ simp (given, right, get, set, writable, failed) refl
                | inl connected ↦ elim (Bool-cases (os.gets_flags true)) [
                  | inr stuck ↦ simp (given, right, get, set, writable, connected, stuck) refl
                  | inl got ↦ elim (Bool-cases (os.sets_flags true)) [
                    | inr stays ↦
                        simp (given, right, get, set, writable, connected, got, stays) refl
                    | inl blocks ↦
                        simp (given, right, get, set, writable, connected, got, blocks, back) refl
                  ]
                ]
              ]
            ]
          ]
        ]
      ]
    ]

-- Everything that has to work works.
abbrev pub connects : System → Bytes → ℕ → Bool
connects os ip port =
    not (is_negative os.socket) && (is_ready os ip && (is_taken os ip port && can_block os))

-- There is an open descriptor after the call.
abbrev pub is_left_open : Opening → Bool
is_left_open (none, result) = false
is_left_open (some d, result) = d.is_open

abbrev pub IsLeft : System → Bytes → ℕ → Opening → Type 0
IsLeft os ip port o =
    (o.1 ≡ (if connects os ip port then ok os.socket else throws runtime_error))
    × ((is_left_open o
          ≡ (not (is_negative os.socket) && (not (is_ready os ip) || is_taken os ip port)))
        × (connects os ip port ≡ true
            → o.0 ≡ some (record { number = os.socket; flags = os.new_flags; is_open = true })))

described-IsLeft : (os : System) (ip : Bytes) (port : ℕ) → IsLeft os ip port (described os ip port)
described-IsLeft os ip port = elim (Bool-cases (is_negative os.socket)) [
  | inl refused ↦ simp refused (refl, (refl, λ e. cc))
  | inr given ↦ elim (Bool-cases (is_ready os ip)) [
    | inr not_ready ↦ simp (given, not_ready) (refl, (refl, λ e. cc))
    | inl ready ↦ elim (Bool-cases (is_taken os ip port)) [
      | inr left_alone ↦ simp (given, ready, left_alone) (refl, (refl, λ e. cc))
      | inl taken ↦ elim (Bool-cases (can_block os)) [
        | inr stuck ↦ simp (given, ready, taken, stuck) (refl, (refl, λ e. cc))
        | inl blocks ↦ simp (given, ready, taken, blocks) (refl, (refl, λ e. refl))
      ]
    ]
  ]
]

-- Where a new socket blocks: `createConnection` returns the descriptor exactly when there is one, the
-- address is valid, both changes of the mode of the socket work and the peer takes the connection in time, and
-- throws a runtime error else; a descriptor that is returned is open and blocks as it did before; and the
-- descriptor is left open, whatever the call ends in, exactly when the address was not valid or the first change
-- of the mode did not work, or else the peer took the connection.
pub create_connection-IsLeft :
    (os : System) (ip : Bytes) (port : ℤ)
    → is_nonblock os.new_flags ≡ false
    → IsLeft os ip (port_number port) (create_connection os ip port)
create_connection-IsLeft os ip port h =
    subst (IsLeft os ip (port_number port)) (sym (create_connection_cases os ip port h))
      (described-IsLeft os ip (port_number port))
