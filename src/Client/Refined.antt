-- ===== src/Client/Refined.antt =====
-- The loop of the client uses the queue as its interleavings allow.
use ufo_torrent.Common.{
  ℕ, zero, suc, ◌+◌, ◌*◌, ◌<◌, List, [], ◌∷◌, ◌++◌, append-nil, append_assoc, Bytes, Option, length,
  Outcome, ok, ◌>>=◌, ◌≡◌, refl, sym, ap, subst, ◌∙◌, inl, inr, arith, Bool-cases, Returns,
  Returns-ok, Returns-after,
}
use ufo_torrent.Common.Int.{ℤ}
use ufo_torrent.Tracker.{Peer}
use ufo_torrent.Tracker.Request.{PeerRetriever, retrieve_peers}
use ufo_torrent.PieceManager.State.{is_complete, bytes_downloaded}
use ufo_torrent.Queue.{Queue, push_back, clear, notify_one}
use ufo_torrent.Queue.Steps.{Reach, ThreadStep}
use ufo_torrent.Client.Loop.{
  Place, looping, over, asking, clearing, filling, notifying, Client, Reading, is_due, answered,
  query, round, fill, step_at, main_step, History, begun, main, thread,
}

-- In front of `notify_one` a notification is pending.
abbrev pub IsPending : Place → Queue → Type 0
IsPending (notifying ps) q = 0 < q.pending
IsPending _ q = Unit

abbrev pub IsReached : ℕ → Client → Type 0
IsReached threads c = Reach threads c.queue × IsPending c.place c.queue

answered-IsReached :
    (threads : ℕ) (ps : List Peer) (c : Client)
    → c.place ≡ looping
    → IsReached threads c
    → IsReached threads (answered ps c)
unfolding answered
answered-IsReached threads [] c e h = h
answered-IsReached threads (p ∷ ps) c e h = (h.0, tt)

module _ (threads : ℕ) (lexical_cast : Bytes → Option ℕ) (r : PeerRetriever)
    (reading : Reading) where
  query-IsReached :
      (current_time : ℤ) (queued : ℕ) (c : Client)
      → IsReached threads c
      → Returns (IsReached threads) (query lexical_cast r reading current_time queued c)
  unfolding query
  query-IsReached current_time queued c h =
      Returns-after (IsReached threads)
        (retrieve_peers lexical_cast reading.http r (bytes_downloaded reading.manager)) _
        (λ ps. answered-IsReached threads ps _ refl (h.0, tt))

  round-IsReached : (c : Client) → IsReached threads c → IsReached threads (round reading c)
  unfolding round
  round-IsReached c h = elim (Bool-cases (is_complete reading.manager)) [
    | inl complete ↦ rw complete (h.0, tt)
    | inr more ↦ elim (Bool-cases (is_due reading.current_time c)) [
      | inl due ↦ rw (more, due) (h.0, tt)
      | inr early ↦ rw (more, early) h
    ]
  ]

  step_at-IsReached :
      (place : Place) (c : Client)
      → c.place ≡ place
      → IsReached threads c
      → Returns (IsReached threads) (step_at lexical_cast r reading place c)
  unfolding step_at fill push_back clear
  step_at-IsReached looping c e h = round-IsReached c h
  step_at-IsReached (asking time queued) c e h = query-IsReached time queued c h
  step_at-IsReached over c e h = h
  step_at-IsReached (clearing ps) c e h = (Reach.cleared h.0, omega arith)
  step_at-IsReached (filling []) c e h = (h.0, tt)
  step_at-IsReached (filling (p ∷ ps)) c e h = (Reach.pushed p h.0, omega arith)
  step_at-IsReached (notifying ps) c e h =
      let pending = subst (λ place. IsPending place c.queue) e h.1 in
      (Reach.moved h.0 (ThreadStep.notified c.queue pending), tt)

  main_step-IsReached :
      (c : Client)
      → IsReached threads c
      → Returns (IsReached threads) (main_step lexical_cast r reading c)
  unfolding main_step
  main_step-IsReached c h = step_at-IsReached c.place c refl h

notify_one-items : (q : Queue) → (notify_one q).items ≡ q.items
unfolding notify_one
notify_one-items q = ground arith

thread-IsPending :
    (place : Place) (q s : Queue) → s.pending ≡ q.pending → IsPending place q → IsPending place s
thread-IsPending looping q s e h = tt
thread-IsPending over q s e h = tt
thread-IsPending (asking time queued) q s e h = tt
thread-IsPending (clearing ps) q s e h = tt
thread-IsPending (filling ps) q s e h = tt
thread-IsPending (notifying ps) q s e h = omega (arith, e, h)

-- The loop alone, from its place on.
module _ (lexical_cast : Bytes → Option ℕ) (r : PeerRetriever) (reading : Reading) where
  -- So many steps of the main thread.
  abbrev pub run : ℕ → Client → Outcome Client
  run zero c = ok c
  run (suc steps) c = main_step lexical_cast r reading c >>= λ d. run steps d

  -- The loop is back at its head, and the queue holds these peers.
  abbrev pub IsFilled : List Peer → Client → Type 0
  IsFilled ps d = (d.place ≡ looping) × (d.queue.items ≡ ps)

  -- In front of `clear` with new peers, three steps and two for each peer bring the loop back to its head,
  -- with the new peers in the queue, in their order, and no others.
  abbrev pub Refills : Place → Client → Type 0
  Refills (clearing ps) c = (d : Client) × (run (3 + 2 * length ps) c ≡ ok d) × IsFilled ps d
  Refills _ c = Unit

  main_step-at :
      {place : Place} (c : Client)
      → c.place ≡ place
      → main_step lexical_cast r reading c ≡ step_at lexical_cast r reading place c
  unfolding main_step
  main_step-at c e = ap (λ place. step_at lexical_cast r reading place c) e

  run_step :
      (steps : ℕ) (c : Client) {c' d : Client}
      → main_step lexical_cast r reading c ≡ ok c'
      → run steps c' ≡ ok d
      → run (suc steps) c ≡ ok d
  run_step steps c e h = ap (λ (o : Outcome Client). o >>= λ d. run steps d) e ∙ h

  -- The inner loop.
  fill_all :
      (ps : List Peer) (c : Client)
      → c.place ≡ filling ps
      → (d : Client) × (run (1 + 2 * length ps) c ≡ ok d) × IsFilled (c.queue.items ++ ps) d
  unfolding step_at fill push_back notify_one
  fill_all [] c e = (
    record c { place = looping },
    run_step 0 c (main_step-at c e) refl,
    (refl, sym (append-nil c.queue.items)),
  )
  fill_all (p ∷ ps) c e =
      let pushed : Client = record c { queue = push_back p c.queue; place = notifying ps } in
      let notified : Client = record pushed {
        queue = notify_one pushed.queue;
        place = filling ps;
      } in
      let (d, ends, (there, items)) = fill_all ps notified refl in
      let steps : 1 + 2 * length (p ∷ ps) ≡ suc (suc (1 + 2 * length ps)) = omega arith in
      (
        d,
        ap (λ n. run n c) steps
            ∙ run_step (suc (1 + 2 * length ps)) c (main_step-at c e)
                (run_step (1 + 2 * length ps) pushed (main_step-at pushed refl) ends),
        (
          there,
          items
              ∙ (ap (λ xs. xs ++ ps) (notify_one-items pushed.queue)
                  ∙ append_assoc c.queue.items (p ∷ []) ps),
        ),
      )

  clear_and_fill : (place : Place) (c : Client) → c.place ≡ place → Refills place c
  unfolding step_at clear
  clear_and_fill looping c e = tt
  clear_and_fill over c e = tt
  clear_and_fill (asking time queued) c e = tt
  clear_and_fill (filling ps) c e = tt
  clear_and_fill (notifying ps) c e = tt
  clear_and_fill (clearing ps) c e =
      let cleared : Client = record c { queue = clear c.queue; place = notifying ps } in
      let notified : Client = record cleared {
        queue = notify_one cleared.queue;
        place = filling ps;
      } in
      let (d, ends, (there, items)) = fill_all ps notified refl in
      let steps : 3 + 2 * length ps ≡ suc (suc (1 + 2 * length ps)) = omega arith in
      (
        d,
        ap (λ n. run n c) steps
            ∙ run_step (suc (1 + 2 * length ps)) c (main_step-at c e)
                (run_step (1 + 2 * length ps) cleared (main_step-at cleared refl) ends),
        (there, items ∙ ap (λ xs. xs ++ ps) (notify_one-items cleared.queue)),
      )

-- In every history of the loop of the client, in any interleaving with the threads of the connections, the
-- queue is in a state that the interleavings at the queue reach, so that what holds of those holds while the
-- client runs; where the main thread is in front of `notify_one`, a notification is pending; and where it is in front of `clear` with the peers of an answer, its steps, if no other thread comes between, bring it back to the head of the loop with just these peers in the queue, in their order.
pub History-IsReached :
    {lexical_cast : Bytes → Option ℕ} {r : PeerRetriever} {threads : ℕ} {c : Client}
    → History lexical_cast r threads c
    → (reading : Reading) → IsReached threads c × Refills lexical_cast r reading c.place c
History-IsReached {lexical_cast} {r} {threads} {c} past reading =
    (reached past, clear_and_fill lexical_cast r reading c.place c refl)
  where
    reached : {c : Client} → History lexical_cast r threads c → IsReached threads c
    reached begun = (Reach.begun, tt)
    reached (main {c} {d} past read e) =
        Returns-ok (IsReached threads) (main_step lexical_cast r read c)
          (main_step-IsReached threads lexical_cast r read c (reached past)) e
    reached (thread {c} {q} past step same) =
        let (before, pending) = reached past in
        (Reach.moved before step, thread-IsPending c.place c.queue q same pending)
