-- ===== src/Client/Session.antt =====
-- The client as a whole: the loop of `downloadFile`, the threads of the connections at the queue, and
-- their calls of the piece manager, with the resets of its progress thread, in any interleaving; the two
-- parts of `blockReceived` are steps of their own, as PieceManager/Steps says.
pub mod Downloaded
use ufo_torrent.Common.{ℕ, [], Bytes, Option, ok, ◌≡◌}
use ufo_torrent.Common.Int.{ℤ}
use ufo_torrent.PieceManager.State.{PieceManager}
use ufo_torrent.PieceManager.Steps
use ufo_torrent.Tracker.Request.{Http, PeerRetriever}
use ufo_torrent.Queue.{Queue}
use ufo_torrent.Queue.Steps.{ThreadStep}
use ufo_torrent.Client.Loop.{Client, Reading, new_client, main_step}

module _ (sha1 : Bytes → Bytes) (lexical_cast : Bytes → Option ℕ) (r : PeerRetriever)
    (threads : ℕ) where
  -- From a manager on. The loop reads the manager as it is then.
  pub data Session (start : PieceManager) : PieceManager → Client → Type 0 where
    begun : Session start start (new_client threads)
    main :
        {m : PieceManager} {c d : Client}
        → Session start m c
        → (current_time : ℤ) (http : Http)
        → main_step lexical_cast r
            (record { manager = m; current_time = current_time; http = http })
            c
          ≡ ok d
        → Session start m d
    thread :
        {m : PieceManager} {c : Client} {q : Queue}
        → Session start m c
        → ThreadStep c.queue q
        → q.pending ≡ c.queue.pending
        → Session start m (record c { queue = q })
    call :
        {m m' : PieceManager} {c : Client}
        → Session start m c
        → Steps.Step sha1 m m'
        → Session start m' c
