-- ===== src/Client/Identity.antt =====
-- The peer identifier of the client.
use ufo_torrent.Common.{
  ℕ, ◌+◌, ◌<◌, List, [], ◌∷◌, ◌++◌, All, Bytes, length, ◌≡◌, refl, arith, lt→ltb, length-append,
}
use ufo_torrent.Common.Decimal.{to_string}
use ufo_torrent.Tracker.Request.Carried.{IsPlain, IsPlain-append, to_string-IsPlain}
use ufo_torrent.Client.{peer_id_start, add_digits, new_peer_id}

length-to_string_digit : (d : ℕ) → d < 10 → length (to_string d) ≡ 1
unfolding to_string
length-to_string_digit d h = rw (lt→ltb d 10 h) refl

add_digits-IsPlain : (s : Bytes) (ds : List ℕ) → IsPlain s → IsPlain (add_digits s ds)
unfolding add_digits
add_digits-IsPlain s [] h = h
add_digits-IsPlain s (d ∷ ds) h =
    add_digits-IsPlain (s ++ to_string d) ds
      (IsPlain-append s (to_string d) h (to_string-IsPlain d))

length-add_digits :
    (s : Bytes) (ds : List ℕ)
    → All (λ d. d < 10) ds
    → length (add_digits s ds) ≡ length s + length ds
unfolding add_digits
length-add_digits s [] h = omega arith
length-add_digits s (d ∷ ds) h =
    let rest = length-add_digits (s ++ to_string d) ds h.1 in
    omega (arith, rest, length-append s (to_string d), length-to_string_digit d h.0)

-- Twelve random digits give an identifier of twenty bytes, which may stand in the query of a URL as it is.
pub new_peer_id-IsPlain :
    (ds : List ℕ)
    → length ds ≡ 12
    → All (λ d. d < 10) ds
    → (length (new_peer_id ds) ≡ 20) × IsPlain (new_peer_id ds)
unfolding new_peer_id
new_peer_id-IsPlain ds n h = (
  omega (arith, n, length-add_digits peer_id_start ds h),
  add_digits-IsPlain peer_id_start ds (omega arith, omega arith),
)
