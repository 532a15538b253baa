-- ===== src/Queue/Joined.antt =====
-- The end of the download: `TorrentClient::terminate` pushes a dummy peer for each thread, and joins
-- the threads.
use ufo_torrent.Common.{
  ℕ, suc, ◌+◌, ◌≤◌, ◌<◌, List, [], ◌∷◌, ◌++◌, ◌==◌, length, ◌≡◌, refl, ◌⊎◌, inl, inr, arith,
  Bool-cases,
}
use ufo_torrent.Tracker.{Peer}
use ufo_torrent.Queue.{Queue, push_back, is_dummy, dummy_peer}
use ufo_torrent.Queue.Steps.{Ending}
use ufo_torrent.Queue.Awake.{
  live, IsAwake, dummies, ThreadStep-IsKept, push_back-IsAwake, Reach-IsAwake,
}

dummies-push : (ps : List Peer) → dummies (ps ++ (dummy_peer ∷ [])) ≡ suc (dummies ps)
unfolding is_dummy
dummies-push [] = refl
dummies-push (p ∷ ps) = omega (arith, dummies-push ps)

dummies-le-length : (ps : List Peer) → dummies ps ≤ length ps
dummies-le-length [] = omega arith
dummies-le-length (p ∷ ps) = ground (arith, dummies-le-length ps)

-- For each dummy peer that was pushed, one is in the queue or a thread has ended.
Ending-dummies :
    {threads k : ℕ} {q : Queue}
    → Ending threads k q
    → IsAwake q × (live q + k ≤ threads + dummies q.items)
unfolding push_back
Ending-dummies (Ending.begun r) = let (awake, few) = Reach-IsAwake r in (awake, omega (arith, few))
Ending-dummies (Ending.pushed {q = q} r) =
    let (awake, enough) = Ending-dummies r in
    (push_back-IsAwake dummy_peer q awake, omega (arith, enough, dummies-push q.items))
Ending-dummies (Ending.moved r s) =
    let (awake, enough) = Ending-dummies r in
    let kept = ThreadStep-IsKept s awake in (kept.0, omega (arith, kept.2, enough))

-- Where none is ready, at work or about to be woken, none waits.
pub Ending-joined :
    {threads : ℕ} {q : Queue}
    → Ending threads threads q
    → q.ready ≡ 0
    → q.working ≡ 0
    → q.pending ≡ 0
    → live q ≡ 0
Ending-joined {threads} {q} r ready working pending =
    let (awake, enough) = Ending-dummies r in
    grind (arith, awake, enough, dummies-le-length q.items)

-- Where none is ready or about to be woken, none waits, and each thread that is left has a dummy peer.
pub Ending-reserved :
    {threads : ℕ} {q : Queue}
    → Ending threads threads q
    → ((q.waiting ≡ 0) ⊎ (0 < q.ready + q.pending)) × (live q ≤ dummies q.items)
Ending-reserved {threads} {q} r =
    let (awake, enough) = Ending-dummies r in
    (
      elim (Bool-cases (q.waiting == 0)) [
        | inl none_waits ↦ inl (ground (arith, none_waits))
        | inr some_wait ↦ inr (grind (arith, awake, enough, some_wait, dummies-le-length q.items))
      ],
      omega (arith, enough),
    )
