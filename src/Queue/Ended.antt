-- ===== src/Queue/Ended.antt =====
-- How the threads come to their end after `terminate`. A thread at work may end or come back at any
-- time; one that blocks in `recv` does neither until its socket gives something.
use ufo_torrent.Common.{
  ℕ, zero, suc, ◌+◌, ◌*◌, ◌≤◌, ◌<◌, List, ltb, ◌==◌, ◌≡◌, ◌⊎◌, inl, inr, arith, Bool-cases,
  List-cases,
}
use ufo_torrent.Tracker.{Peer}
use ufo_torrent.Queue.{Queue, notify_one, take_front, pop_front, finish, is_dummy}
use ufo_torrent.Queue.Steps.{ThreadStep, Ending}
use ufo_torrent.Queue.Awake.{live, dummies}
use ufo_torrent.Queue.Joined.{Ending-joined, Ending-reserved}

-- How much is left to do: a notification may lead to a thread that is ready, and that one to a thread
-- that works.
abbrev work : Queue → ℕ
work q = 3 * q.pending + 2 * q.ready + q.working

work-notify_one : (q : Queue) → 0 < q.pending → work (notify_one q) < work q
unfolding notify_one
work-notify_one q h = elim (Bool-cases (q.waiting == 0)) [
  | inl none_waits ↦ rw none_waits (omega (arith, h))
  | inr some_wait ↦ rw some_wait (omega (arith, h))
]

work-take_front :
    (p : Peer) (items : List Peer) (q : Queue) → 0 < q.ready → work (take_front p items q) < work q
unfolding take_front
work-take_front p items q h = elim (Bool-cases (is_dummy p)) [
  | inl dummy ↦ rw dummy (omega (arith, h))
  | inr real ↦ rw real (omega (arith, h))
]

work-pop_front : (q : Queue) → 0 < q.ready → work (pop_front q) < work q
unfolding pop_front
work-pop_front q h = elim (List-cases q.items) [
  | inl nothing ↦ rw (nothing, pop_front) (omega (arith, h))
  | inr (p, items, e) ↦ rw (e, pop_front) (work-take_front p items q h)
]

work-finish : (q : Queue) → 0 < q.working → work (finish q) < work q
unfolding finish
work-finish q h = omega (arith, h)

-- The threads go on until none can.
Ending-quiet :
    (fuel : ℕ) {threads k : ℕ} {q : Queue}
    → Ending threads k q
    → work q < fuel
    → (r : Queue) × Ending threads k r × (r.ready ≡ 0) × (r.working ≡ 0) × (r.pending ≡ 0)
Ending-quiet zero e h = absurd (omega arith)
Ending-quiet (suc fuel) {q = q} e h = elim (Bool-cases (ltb 0 q.pending)) [
  | inl some_pending ↦
      let more : 0 < q.pending = ground (arith, some_pending) in
      Ending-quiet fuel (Ending.moved e (ThreadStep.notified q more))
        (omega (arith, h, work-notify_one q more))
  | inr none_pending ↦ elim (Bool-cases (ltb 0 q.ready)) [
    | inl some_ready ↦
        let more : 0 < q.ready = ground (arith, some_ready) in
        Ending-quiet fuel (Ending.moved e (ThreadStep.popped q more))
          (omega (arith, h, work-pop_front q more))
    | inr none_ready ↦ elim (Bool-cases (ltb 0 q.working)) [
      | inl some_work ↦
          let more : 0 < q.working = ground (arith, some_work) in
          Ending-quiet fuel (Ending.moved e (ThreadStep.finished q more))
            (omega (arith, h, work-finish q more))
      | inr none_work ↦ (
        q,
        e,
        ground (arith, none_ready),
        ground (arith, none_work),
        ground (arith, none_pending),
      )
    ]
  ]
]

-- When `terminate` has pushed a dummy peer for every thread, in any interleaving: if a thread still waits at the queue, another one is ready there or a notification is on its way; in the queue there is a dummy peer for each thread that has not ended; and there are steps, in which the threads at work end, to a state in which all threads have ended.
pub Ending-ends :
    {threads : ℕ} {q : Queue}
    → Ending threads threads q
    → (((q.waiting ≡ 0) ⊎ (0 < q.ready + q.pending)) × (live q ≤ dummies q.items))
      × ((r : Queue) × Ending threads threads r × (live r ≡ 0))
Ending-ends {q = q} e =
    let (r, ended, ready, working, pending) = Ending-quiet (suc (work q)) e (omega arith) in
    (Ending-reserved e, (r, ended, Ending-joined ended ready working pending))
