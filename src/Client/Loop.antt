-- ===== src/Client/Loop.antt =====
-- The loop of `downloadFile` in src/network_part/TorrentClient.cpp, between the steps of the threads of
-- the connections. Each step of the main thread holds the mutex of the queue once at most.
use ufo_torrent.Common.{
  ℕ, suc, ◌+◌, Bool, false, ◌||◌, List, [], ◌∷◌, Bytes, Option, leb, ◌==◌, if◌then◌else◌, length,
  Outcome, ok, ◌>>=◌, ◌≡◌,
}
use ufo_torrent.Common.Int.{ℤ, pos, negsuc}
use ufo_torrent.PieceManager.State.{PieceManager, is_complete, bytes_downloaded}
use ufo_torrent.Tracker.{Peer}
use ufo_torrent.Tracker.Request.{Http, PeerRetriever, request_url, retrieve_peers}
use ufo_torrent.Queue.{Queue, empty, push_back, clear, notify_one, new_queue}
use ufo_torrent.Queue.Steps.{ThreadStep}

-- Where the main thread is: at the head of the loop, in front of a request with the time and the
-- number of peers that it has read, in front of `clear` with new peers, before the next `push_back` of
-- its inner loop, in front of the `notify_one` of a call of `push_back` or `clear`, or behind the loop.
pub data Place : Type 0 where
  looping over : Place
  asking : ℤ → ℕ → Place
  clearing filling notifying : List Peer → Place

-- A request to the tracker: when, where to, and how many peers were in the queue.
pub record Request : Type 0 where
  pub time : ℤ
  pub url : Bytes
  pub queued : ℕ

-- The variables of the loop, with the requests that were made, the last one first.
pub record Client : Type 0 where
  pub place : Place
  pub queue : Queue
  pub last_peer_query : ℤ
  pub requests : List Request

-- What a step reads: the manager, which the threads change, the clock, and the library.
pub record Reading : Type 0 where
  pub manager : PieceManager
  pub current_time : ℤ
  pub http : Http

abbrev pub peer_query_interval : ℕ
peer_query_interval = 60

-- (time_t)(-1).
abbrev pub never : ℤ
never = negsuc 0

unfoldable pub is_never : ℤ → Bool
is_never (pos n) = false
is_never (negsuc n) = n == 0

-- Whether the difference of two times is so many seconds at least.
unfoldable pub is_apart : ℕ → ℤ → ℤ → Bool
is_apart seconds (pos before) (pos now) = leb (before + seconds) now
is_apart seconds (pos before) (negsuc now) = false
is_apart seconds (negsuc before) (pos now) = leb seconds (now + suc before)
is_apart seconds (negsuc before) (negsuc now) = leb (now + seconds) before

-- The condition of a request.
unfoldable pub is_due : ℤ → Client → Bool
unfolding is_never is_apart empty
is_due current_time c =
    is_never c.last_peer_query
    || (is_apart peer_query_interval c.last_peer_query current_time || empty c.queue)

-- `if (!peers.empty())`.
unfoldable pub answered : List Peer → Client → Client
answered [] c = c
answered (p ∷ ps) c = record c { place = clearing (p ∷ ps) }

-- The request at a time, to a manager, with so many peers in the queue.
abbrev pub new_request : PeerRetriever → PieceManager → ℤ → ℕ → Request
new_request r m current_time queued = record {
  time = current_time;
  url = request_url r (bytes_downloaded m);
  queued = queued;
}

-- The body of the `if` of the loop, up to what is done with peers.
unfoldable pub query :
    (Bytes → Option ℕ) → PeerRetriever → Reading → ℤ → ℕ → Client → Outcome Client
unfolding retrieve_peers bytes_downloaded answered
query lexical_cast r reading current_time queued c = do
  peers ← retrieve_peers lexical_cast reading.http r (bytes_downloaded reading.manager)
  ok (
      answered peers (record c {
        place = looping;
        last_peer_query = current_time;
        requests = new_request r reading.manager current_time queued ∷ c.requests;
      }))

-- The head of the loop, with the condition of the `if`.
unfoldable pub round : Reading → Client → Client
unfolding is_complete is_due
round reading c =
    if is_complete reading.manager
    then record c { place = over }
    else if is_due reading.current_time c
    then record c { place = asking reading.current_time (length c.queue.items) }
    else c

-- A round of the inner loop, where a peer is left.
unfoldable pub fill : List Peer → Client → Client
unfolding push_back
fill [] c = record c { place = looping }
fill (p ∷ ps) c = record c { queue = push_back p c.queue; place = notifying ps }

-- A step of the main thread at a place.
unfoldable pub step_at :
    (Bytes → Option ℕ) → PeerRetriever → Reading → Place → Client → Outcome Client
unfolding round query clear fill notify_one
step_at lexical_cast r reading looping c = ok (round reading c)
step_at lexical_cast r reading (asking current_time queued) c =
    query lexical_cast r reading current_time queued c
step_at lexical_cast r reading (clearing ps) c =
    ok (record c { queue = clear c.queue; place = notifying ps })
step_at lexical_cast r reading (filling ps) c = ok (fill ps c)
step_at lexical_cast r reading (notifying ps) c =
    ok (record c { queue = notify_one c.queue; place = filling ps })
step_at lexical_cast r reading over c = ok c

unfoldable pub main_step : (Bytes → Option ℕ) → PeerRetriever → Reading → Client → Outcome Client
unfolding step_at
main_step lexical_cast r reading c = step_at lexical_cast r reading c.place c

-- The loop begins, with so many threads.
abbrev pub new_client : ℕ → Client
new_client threads = record {
  place = looping;
  queue = new_queue threads;
  last_peer_query = never;
  requests = [];
}

-- The histories of the loop. A thread of a connection leaves the notification of the main thread to the
-- main thread. A step of the main thread that throws ends the program.
pub data History (lexical_cast : Bytes → Option ℕ) (r : PeerRetriever) (threads : ℕ)
    : Client → Type 0 where
  begun : History lexical_cast r threads (new_client threads)
  main :
      {c d : Client}
      → History lexical_cast r threads c
      → (reading : Reading) → main_step lexical_cast r reading c ≡ ok d
      → History lexical_cast r threads d
  thread :
      {c : Client} {q : Queue}
      → History lexical_cast r threads c
      → ThreadStep c.queue q
      → q.pending ≡ c.queue.pending
      → History lexical_cast r threads (record c { queue = q })
