-- ===== src/Examples/Threads.antt =====
-- A thread that waits at the queue when the download ends, and the files of the disk.
use ufo_torrent.Common.{◌+◌, ◌≤◌, ◌<◌, ◌≡◌, refl, ◌⊎◌, arith}
use ufo_torrent.Queue.{
  Queue, new_queue, push_back, notify_one, pop_front, come_back, dummy_peer, is_dummy,
}
use ufo_torrent.Queue.Steps.{ThreadStep, Reach, Ending}
use ufo_torrent.Queue.Awake.{IsAwake, live, dummies, Reach-IsAwake}
use ufo_torrent.Queue.Ended.{Ending-ends}

-- The thread comes to the empty queue and waits there.
asleep : Reach 1 (pop_front (come_back (new_queue 1)))
unfolding pop_front come_back
asleep =
    Reach.moved (Reach.moved Reach.begun (ThreadStep.came_back (new_queue 1) (omega arith)))
      (ThreadStep.popped (come_back (new_queue 1)) (omega arith))

-- The queue after the dummy peer has come and has been taken.
abbrev ended_queue : Queue
ended_queue = pop_front (notify_one (push_back dummy_peer (pop_front (come_back (new_queue 1)))))

Reach-IsAwake_example :
    IsAwake (pop_front (come_back (new_queue 1))) × (live (pop_front (come_back (new_queue 1))) ≤ 1)
Reach-IsAwake_example = Reach-IsAwake asleep

-- The dummy peer has been pushed, and the thread still waits.
pushed_dummy : Ending 1 1 (push_back dummy_peer (pop_front (come_back (new_queue 1))))
pushed_dummy = Ending.pushed (Ending.begun asleep)

-- The queue with the dummy peer.
abbrev ending_queue : Queue
ending_queue = push_back dummy_peer (pop_front (come_back (new_queue 1)))

Ending-ends_example :
    (((ending_queue.waiting ≡ 0) ⊎ (0 < ending_queue.ready + ending_queue.pending))
      × (live ending_queue ≤ dummies ending_queue.items))
    × ((r : Queue) × Ending 1 1 r × (live r ≡ 0))
Ending-ends_example = Ending-ends pushed_dummy

-- The thread is woken, takes the dummy peer, and ends.
all_ended : live ended_queue ≡ 0
unfolding pop_front come_back push_back notify_one is_dummy
all_ended = refl
