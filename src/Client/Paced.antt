-- ===== src/Client/Paced.antt =====
-- How often the client asks the tracker, and what for.
use ufo_torrent.Common.{
  ℕ, suc, ◌+◌, ◌*◌, ◌%◌, ◌^◌, ◌≤◌, List, [], ◌∷◌, Bytes, Option, length, ◌≡◌, ◌⊎◌,
}
use ufo_torrent.Common.Int.{ℤ, pos, negsuc}
use ufo_torrent.Tracker.Request.{PeerRetriever, request_url}
use ufo_torrent.Client.Loop.{Place, asking, Request, Client, Reading, never}

-- The second time is a minute after the first, or later.
abbrev pub IsLater : ℤ → ℤ → Type 0
IsLater (pos before) (pos now) = before + 60 ≤ now
IsLater (pos before) (negsuc now) = ⊥
IsLater (negsuc before) (pos now) = 60 ≤ now + suc before
IsLater (negsuc before) (negsuc now) = now + 60 ≤ before

-- A request is made a minute after the one before, unless the queue was empty, or the time of the one
-- before reads as that of no request at all.
abbrev pub IsSpaced : Request → Request → Type 0
IsSpaced before now = (now.queued ≡ 0) ⊎ ((before.time ≡ never) ⊎ IsLater before.time now.time)

abbrev pub IsPaced : List Request → Type 0
IsPaced [] = Unit
IsPaced (now ∷ []) = Unit
IsPaced (now ∷ before ∷ rest) = IsSpaced before now × IsPaced (before ∷ rest)

-- The requests behind a step at a place: in front of a request there is one more, for the bytes that the
-- downloaded pieces of the manager have at that moment, and else they are the same.
abbrev pub asked_at : PeerRetriever → Reading → Place → List Request → List Request
asked_at r reading (asking time queued) requests =
    record {
      time = time;
      url =
          request_url r
            (length reading.manager.have_pieces * reading.manager.piece_length % 2 ^ 64);
      queued = queued;
    }
    ∷ requests
asked_at r reading _ requests = requests

-- The last request is that at the time that the loop has noted.
abbrev IsNoted : ℤ → List Request → Type 0
IsNoted time [] = time ≡ never
IsNoted time (request ∷ rest) = request.time ≡ time

-- Why a request is due at a time, with so many peers in the queue.
abbrev pub IsDue : ℤ → ℤ → ℕ → Type 0
IsDue last time queued = (last ≡ never) ⊎ (IsLater last time ⊎ (queued ≡ 0))

-- In front of a request, it is due.
abbrev pub IsReady : Place → ℤ → Type 0
IsReady (asking time queued) last = IsDue last time queued
IsReady _ last = Unit

abbrev pub IsRegular : Client → Type 0
IsRegular c =
    IsPaced c.requests × (IsNoted c.last_peer_query c.requests × IsReady c.place c.last_peer_query)

module _ (r : PeerRetriever) (lexical_cast : Bytes → Option ℕ) (reading : Reading) where
  -- What a step adds to the requests.
  abbrev pub AsksAt : Place → List Request → Client → Type 0
  AsksAt place requests d = d.requests ≡ asked_at r reading place requests
