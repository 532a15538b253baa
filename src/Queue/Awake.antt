-- ===== src/Queue/Awake.antt =====
-- No thread sleeps beside a peer that it could have.
use ufo_torrent.Common.{
  ℕ, ◌+◌, ◌≤◌, ◌<◌, true, false, List, [], ◌∷◌, ◌++◌, ◌==◌, length, ◌≡◌, refl, ap, subst, ◌⊎◌, inl,
  inr, arith, Bool-cases, List-cases, length-append,
}
use ufo_torrent.Tracker.{Peer}
use ufo_torrent.Queue.{
  Queue, push_back, clear, notify_one, wake, take_front, pop_front, come_back, finish, is_dummy,
}
use ufo_torrent.Queue.Steps.{ThreadStep, notified, woken, popped, came_back, finished, Reach}

-- The threads that have not ended.
abbrev pub live : Queue → ℕ
live q = q.ready + q.waiting + q.working

-- No thread waits, or for each peer in the queue a thread is awake or about to be woken.
abbrev pub IsAwake : Queue → Type 0
IsAwake q = (q.waiting ≡ 0) ⊎ (length q.items ≤ q.ready + q.pending)

-- The dummy peers of a list.
abbrev pub dummies : List Peer → ℕ
dummies [] = 0
dummies (p ∷ ps) = (elim (is_dummy p) [ true ↦ 1 | false ↦ 0 ]) + dummies ps

pub dummies-append : (ps : List Peer) (p : Peer) → dummies ps ≤ dummies (ps ++ (p ∷ []))
dummies-append [] p = omega arith
dummies-append (r ∷ ps) p = omega (arith, dummies-append ps p)

-- What a step of a thread keeps: it is right about who sleeps, no thread is born, and a dummy peer that
-- is taken ends a thread.
abbrev pub IsKept : Queue → Queue → Type 0
IsKept q r = IsAwake r × (live r ≤ live q) × (live r + dummies q.items ≤ live q + dummies r.items)

pub push_back-IsAwake : (p : Peer) (q : Queue) → IsAwake q → IsAwake (push_back p q)
unfolding push_back
push_back-IsAwake p q (inl none_waits) = inl none_waits
push_back-IsAwake p q (inr enough) = inr (omega (arith, enough, length-append q.items (p ∷ [])))

take_front-IsKept :
    (p : Peer) (items : List Peer) (q : Queue)
    → q.items ≡ p ∷ items
    → 0 < q.ready
    → IsAwake q
    → IsKept q (take_front p items q)
unfolding take_front
take_front-IsKept p items q e r h =
    let whole = ap length e in
    elim (Bool-cases (is_dummy p)) [
      | inl dummy ↦ rw (e, dummy) (grind (arith, whole, h))
      | inr real ↦ rw (e, real) (grind (arith, whole, h))
    ]

pop_front-IsKept : (q : Queue) → 0 < q.ready → IsAwake q → IsKept q (pop_front q)
unfolding pop_front
pop_front-IsKept q r h = elim (List-cases q.items) [
  | inl nothing ↦
      let none_there = ap length nothing in rw (nothing, pop_front) (grind (arith, none_there))
  | inr (p, items, e) ↦
      subst (IsKept q) (rw (pop_front, e) refl) (take_front-IsKept p items q e r h)
]

pub ThreadStep-IsKept : {q r : Queue} → ThreadStep q r → IsAwake q → IsKept q r
unfolding notify_one wake pop_front come_back finish
ThreadStep-IsKept (notified q some_pending) h = elim (Bool-cases (q.waiting == 0)) [
  | inl none_waits ↦ rw none_waits (grind arith)
  | inr some_wait ↦ rw some_wait (grind arith)
]
ThreadStep-IsKept (woken q some_waits) h = grind arith
ThreadStep-IsKept (popped q some_ready) h = pop_front-IsKept q some_ready h
ThreadStep-IsKept (came_back q some_works) h = grind arith
ThreadStep-IsKept (finished q some_works) h = grind arith

-- While the download runs, in any interleaving of the threads: a thread waits only where each peer in
-- the queue has a thread that is awake or is about to be woken, so that no wake-up is lost; and there
-- are never more threads than were started.
pub Reach-IsAwake : {threads : ℕ} {q : Queue} → Reach threads q → IsAwake q × (live q ≤ threads)
unfolding clear push_back
Reach-IsAwake Reach.begun = (inl refl, omega arith)
Reach-IsAwake (Reach.pushed {q} p r) =
    let (awake, few) = Reach-IsAwake r in (push_back-IsAwake p q awake, few)
Reach-IsAwake (Reach.cleared r) = let (awake, few) = Reach-IsAwake r in (inr (omega arith), few)
Reach-IsAwake (Reach.moved r s) =
    let (awake, few) = Reach-IsAwake r in
    let kept = ThreadStep-IsKept s awake in (kept.0, omega (arith, kept.1, few))
