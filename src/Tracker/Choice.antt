-- ===== src/Tracker/Choice.antt =====
-- What the client takes out of the answer of a tracker and out of a torrent file.
use ufo_torrent.Common.{
  [], ℕ, zero, suc, ◌*◌, ◌%◌, true, not, ◌&&◌, List, ◌∷◌, Bytes, some, ◌==◌, length, is_empty, ok,
  ◌≡◌, refl, ap, ◌⊎◌, inl, inr, arith, Bool-cases,
}
use ufo_torrent.TorrentFile.{TorrentFile}
use ufo_torrent.Tracker.{
  Peer, is_web, first_web, first_of_tiers, announce_url, compact_peers, read_peers,
}
use ufo_torrent.Bencode.{string}

abbrev pub IsEmptyOrWeb : Bytes → Type 0
IsEmptyOrWeb url = (url ≡ []) ⊎ (is_web url ≡ true)

first_web-IsEmptyOrWeb : (urls : List Bytes) → IsEmptyOrWeb (first_web urls)
unfolding first_web
first_web-IsEmptyOrWeb [] = inl refl
first_web-IsEmptyOrWeb (url ∷ urls) = elim (Bool-cases (is_web url)) [
  | inl web ↦ rw (web, first_web) (inr web)
  | inr other ↦ rw (other, first_web) (first_web-IsEmptyOrWeb urls)
]

first_of_tiers-IsEmptyOrWeb : (tiers : List (List Bytes)) → IsEmptyOrWeb (first_of_tiers tiers)
unfolding first_of_tiers
first_of_tiers-IsEmptyOrWeb [] = inl refl
first_of_tiers-IsEmptyOrWeb (tier ∷ tiers) = elim (Bool-cases (is_empty (first_web tier))) [
  | inl none_here ↦ rw (none_here, first_of_tiers) (first_of_tiers-IsEmptyOrWeb tiers)
  | inr here ↦ rw (here, first_of_tiers) (first_web-IsEmptyOrWeb tier)
]

-- The announce URL that the client takes is an HTTP or HTTPS address, or empty.
pub announce_url-IsEmptyOrWeb : (t : TorrentFile) → IsEmptyOrWeb (announce_url t)
unfolding announce_url
announce_url-IsEmptyOrWeb t = elim (Bool-cases (not (is_empty t.announce) && is_web t.announce)) [
  | inl own ↦ rw (own, announce_url) (inr (ground (arith, own)))
  | inr other ↦ rw (other, announce_url) (first_of_tiers-IsEmptyOrWeb t.announce_list)
]

compact_peers-length : (n : ℕ) (s : Bytes) → length s ≡ 6 * n → length (compact_peers s) ≡ n
unfolding compact_peers
compact_peers-length zero [] h = refl
compact_peers-length zero (a ∷ s) h = absurd (omega arith)
compact_peers-length (suc n) [] h = absurd (omega arith)
compact_peers-length (suc n) (a ∷ []) h = absurd (omega arith)
compact_peers-length (suc n) (a ∷ b ∷ []) h = absurd (omega arith)
compact_peers-length (suc n) (a ∷ b ∷ c ∷ []) h = absurd (omega arith)
compact_peers-length (suc n) (a ∷ b ∷ c ∷ d ∷ []) h = absurd (omega arith)
compact_peers-length (suc n) (a ∷ b ∷ c ∷ d ∷ p ∷ []) h = absurd (omega arith)
compact_peers-length (suc n) (a ∷ b ∷ c ∷ d ∷ p ∷ q ∷ s) h =
    ap suc (compact_peers-length n s (omega arith))

-- A compact list of peers whose length is a multiple of six is taken, and gives one peer for each six bytes.
pub read_peers-length :
    (n : ℕ) (s : Bytes)
    → length s ≡ 6 * n
    → (ps : List Peer) × (read_peers (some (string s)) ≡ ok ps) × (length ps ≡ n)
unfolding read_peers
read_peers-length n s h =
    let whole : (length s % 6 == 0) ≡ true = ground arith in
    (compact_peers s, rw (whole) refl, compact_peers-length n s h)
