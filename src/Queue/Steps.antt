-- ===== src/Queue/Steps.antt =====
-- The interleavings of the threads of TorrentClient.cpp at the queue. A thread of a connection does one
-- step at a time, in any order, or none for as long as it blocks in `recv`: that a step is possible says
-- nothing about when it is taken. The main thread fills and clears the queue, and ends with `terminate`.
use ufo_torrent.Common.{ℕ, suc, ◌<◌}
use ufo_torrent.Tracker.{Peer}
use ufo_torrent.Queue.{
  Queue, push_back, clear, notify_one, wake, pop_front, come_back, finish, new_queue, dummy_peer,
}

pub data ThreadStep : Queue → Queue → Type 0 where
  notified : (q : Queue) → 0 < q.pending → ThreadStep q (notify_one q)
  woken : (q : Queue) → 0 < q.waiting → ThreadStep q (wake q)
  popped : (q : Queue) → 0 < q.ready → ThreadStep q (pop_front q)
  came_back : (q : Queue) → 0 < q.working → ThreadStep q (come_back q)
  finished : (q : Queue) → 0 < q.working → ThreadStep q (finish q)

-- While the download runs, on so many threads.
pub data Reach (threads : ℕ) : Queue → Type 0 where
  begun : Reach threads (new_queue threads)
  pushed : {q : Queue} → (p : Peer) → Reach threads q → Reach threads (push_back p q)
  cleared : {q : Queue} → Reach threads q → Reach threads (clear q)
  moved : {q r : Queue} → Reach threads q → ThreadStep q r → Reach threads r

-- During `terminate`, when so many dummy peers have been pushed.
pub data Ending (threads : ℕ) : ℕ → Queue → Type 0 where
  begun : {q : Queue} → Reach threads q → Ending threads 0 q
  pushed :
      {k : ℕ} → {q : Queue} → Ending threads k q → Ending threads (suc k) (push_back dummy_peer q)
  moved : {k : ℕ} → {q r : Queue} → Ending threads k q → ThreadStep q r → Ending threads k r
