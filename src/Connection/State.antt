-- ===== src/Connection/State.antt =====
-- The state of a connection, and runs that change it and may throw.
use ufo_torrent.Common.{Bool, List, Bytes, Option, Outcome, ok, throws, Exception, ◌≡◌, refl, subst}
use ufo_torrent.Socket.{Input}
use ufo_torrent.PieceManager.State.{PieceManager}

-- An open socket: what is to come from the peer, what was sent to it, and whether sending fails.
pub record Socket : Type 0 where
  pub input : Input
  pub output : List Bytes
  pub broken : Bool

-- `PeerConnection`; `sock` is none where the descriptor is zero.
pub record Connection : Type 0 where
  pub sock : Option Socket
  pub choked : Bool
  pub terminated : Bool
  pub request_pending : Bool
  pub client_id : Bytes
  pub info_hash : Bytes
  pub peer_bit_field : Bytes
  pub peer_id : Bytes

-- The connection and the manager that it shares with the others.
pub record World : Type 0 where
  pub connection : Connection
  pub manager : PieceManager

-- `waiting` means that the input ends before the run does.
pub data Run {ℓ} (A : Type ℓ) : Type ℓ where
  done : A → World → Run A
  raised : Exception → World → Run A
  undefined aborted waiting : Run A

abbrev pub M {ℓ} : Type ℓ → Type ℓ
M A = World → Run A

abbrev pub pure {ℓ} : {A : Type ℓ} → A → M A
pure a w = done a w

abbrev pub raise {ℓ} : {A : Type ℓ} → Exception → M A
raise e w = raised e w

abbrev pub and_then {ℓ κ} : {A : Type ℓ} {B : Type κ} → Run A → (A → M B) → Run B
and_then (done a w) f = f a w
and_then (raised e w) f = raised e w
and_then undefined f = undefined
and_then aborted f = aborted
and_then waiting f = waiting

infixl 5 ◌>>=◌ ◌>>◌
abbrev pub ◌>>=◌ {ℓ κ} : {A : Type ℓ} {B : Type κ} → M A → (A → M B) → M B
m >>= f = λ w. and_then (m w) f

abbrev pub ◌>>◌ {ℓ} : {B : Type ℓ} → M (Unit {0}) → M B → M B
m >> k = m >>= λ _. k

-- A call that keeps the state, or leaves by an exception.
abbrev pub from_outcome {ℓ} : {A : Type ℓ} → Outcome A → M A
from_outcome (ok a) w = done a w
from_outcome (throws e) w = raised e w
from_outcome Outcome.undefined w = undefined
from_outcome Outcome.aborted w = aborted

-- The property holds of the state that a run leaves, by an exception too.
abbrev pub RunAll {ℓ κ} : {A : Type ℓ} → (World → Type κ) → Run A → Type κ
RunAll P (done a w) = P w
RunAll P (raised e w) = P w
RunAll P undefined = Unit
RunAll P aborted = Unit
RunAll P waiting = Unit

pub RunAll-and_then {ℓ ℓ' κ κ'} :
    {A : Type ℓ} {B : Type ℓ'} (P : World → Type κ) (Q : World → Type κ') (r : Run A) (f : A → M B)
    → RunAll P r
    → ((w : World) → P w → Q w)
    → ((a : A) (w : World) → P w → RunAll Q (f a w))
    → RunAll Q (and_then r f)
RunAll-and_then P Q (done a w) f h i k = k a w h
RunAll-and_then P Q (raised e w) f h i k = i w h
RunAll-and_then P Q undefined f h i k = tt
RunAll-and_then P Q aborted f h i k = tt
RunAll-and_then P Q waiting f h i k = tt

-- The run neither reads nor writes the socket.
abbrev pub IsQuiet {ℓ} : {A : Type ℓ} → M A → Type 0
IsQuiet m = (w : World) → RunAll (λ w'. w'.connection.sock ≡ w.connection.sock) (m w)

pub IsQuiet-bind {ℓ κ} :
    {A : Type ℓ} {B : Type κ} (m : M A) (f : A → M B)
    → IsQuiet m
    → ((a : A) → IsQuiet (f a))
    → IsQuiet (m >>= f)
IsQuiet-bind m f h k w =
    RunAll-and_then (λ w'. w'.connection.sock ≡ w.connection.sock)
      (λ w'. w'.connection.sock ≡ w.connection.sock) (m w) f (h w) (λ w' e. e)
      (λ a w' e.
        subst (λ (s : Option Socket). RunAll (λ w''. w''.connection.sock ≡ s) (f a w')) e (k a w'))

pub from_outcome-IsQuiet {ℓ} : {A : Type ℓ} (o : Outcome A) → IsQuiet (from_outcome o)
from_outcome-IsQuiet (ok a) w = refl
from_outcome-IsQuiet (throws e) w = refl
from_outcome-IsQuiet Outcome.undefined w = tt
from_outcome-IsQuiet Outcome.aborted w = tt

pub RunAll-imp {ℓ κ κ'} :
    {A : Type ℓ} (P : World → Type κ) (Q : World → Type κ') (r : Run A)
    → RunAll P r
    → ((w : World) → P w → Q w)
    → RunAll Q r
RunAll-imp P Q (done a w) h f = f w h
RunAll-imp P Q (raised e w) h f = f w h
RunAll-imp P Q undefined h f = tt
RunAll-imp P Q aborted h f = tt
RunAll-imp P Q waiting h f = tt
