-- ===== src/Queue.antt =====
-- includes/network_part/SharedQueue.h: the queue of peers, with the threads that take from it. A
-- thread in `pop_front` is ready, when it holds the mutex next, or waits on the condition variable; one
-- that is served by a peer is working. A call of `notify_one` follows the release of the mutex and is
-- pending until then.
pub mod Steps
pub mod Awake
pub mod Joined
pub mod Ended
use ufo_torrent.Common.{
  [], ℕ, ◌+◌, ◌-◌, Bool, List, ◌∷◌, ◌++◌, Bytes, ◌==◌, beq, if◌then◌else◌, length,
}
use ufo_torrent.Common.Int.{pos}
use ufo_torrent.Tracker.{Peer}

pub record Queue : Type 0 where
  pub items : List Peer
  pub ready : ℕ
  pub waiting : ℕ
  pub working : ℕ
  pub pending : ℕ

-- "0.0.0.0", the address of a dummy peer.
abbrev pub dummy_peer_ip : Bytes
dummy_peer_ip = b'0' ∷ b'.' ∷ b'0' ∷ b'.' ∷ b'0' ∷ b'.' ∷ b'0' ∷ []

abbrev pub dummy_peer : Peer
dummy_peer = record { address = dummy_peer_ip; port = pos 0 }

unfoldable pub is_dummy : Peer → Bool
is_dummy p = beq p.address dummy_peer_ip

-- `size` and `empty`.
unfoldable pub size : Queue → ℕ
size q = length q.items

unfoldable pub empty : Queue → Bool
unfolding size
empty q = size q == 0

-- `push_back` and `clear`, up to the release of the mutex.
unfoldable pub push_back : Peer → Queue → Queue
push_back p q = record q { items = q.items ++ (p ∷ []); pending = q.pending + 1 }

unfoldable pub clear : Queue → Queue
clear q = record q { items = []; pending = q.pending + 1 }

-- `notify_one`: a thread that waits is woken, if there is one.
unfoldable pub notify_one : Queue → Queue
notify_one q =
    if q.waiting == 0
    then record q { pending = q.pending - 1 }
    else record q { pending = q.pending - 1; waiting = q.waiting - 1; ready = q.ready + 1 }

-- A thread that wakes by itself.
unfoldable pub wake : Queue → Queue
wake q = record q { waiting = q.waiting - 1; ready = q.ready + 1 }

-- A thread that is ready has the mutex: it waits where the queue is empty, and else takes the front;
-- with a dummy peer `start` returns.
unfoldable pub take_front : Peer → List Peer → Queue → Queue
unfolding is_dummy
take_front p items q =
    if is_dummy p
    then record q { items = items; ready = q.ready - 1 }
    else record q { items = items; ready = q.ready - 1; working = q.working + 1 }

unfoldable pub pop_front : Queue → Queue
unfolding take_front
pop_front q = elim q.items [
  | [] ↦ record q { ready = q.ready - 1; waiting = q.waiting + 1 }
  | p ∷ items ↦ take_front p items q
]

-- The loop of `start` comes back to the queue, or it is over.
unfoldable pub come_back : Queue → Queue
come_back q = record q { working = q.working - 1; ready = q.ready + 1 }

-- The loop of `start` is over. A thread that blocks in `recv` stays at work meanwhile.
unfoldable pub finish : Queue → Queue
finish q = record q { working = q.working - 1 }

-- Before any thread has reached the queue.
abbrev pub new_queue : ℕ → Queue
new_queue threads = record { items = []; ready = 0; waiting = 0; working = threads; pending = 0 }
