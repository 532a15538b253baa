-- ===== src/Bencode/Order.antt =====
-- Entries in the order of their keys, filled in one after another.
use ufo_torrent.Common.{◌^◌, ◌<◌, true, false, [], ◌∷◌, Bytes, ◌≡◌, refl, ap, arith}
use ufo_torrent.Common.Int.{ℤ, pos, negsuc}
use ufo_torrent.Bencode.{Value, Entries, leaf, entry, put, less}
use ufo_torrent.Bencode.Text.{magnitude, IsNatural, IsBefore}

-- The key is after all keys of the entries.
abbrev pub IsAfter : Bytes → Entries → Type 0
IsAfter k leaf = Unit {0}
IsAfter k (entry j w d) = (less j k ≡ true) × IsAfter k d

-- All keys of the second entries are after those of the first.
abbrev pub AllAfter : Entries → Entries → Type 0
AllAfter d leaf = Unit {0}
AllAfter d (entry k v es) = IsAfter k d × AllAfter d es

abbrev pub joined : Entries → Entries → Entries
joined leaf es = es
joined (entry k v d) es = entry k v (joined d es)

pub joined_leaf : (d : Entries) → joined d leaf ≡ d
joined_leaf leaf = refl
joined_leaf (entry j w d) = ap (entry j w) (joined_leaf d)

pub AllAfter-leaf : (es : Entries) → AllAfter leaf es
AllAfter-leaf leaf = tt
AllAfter-leaf (entry k v es) = (tt, AllAfter-leaf es)

pub less_asym : (xs ys : Bytes) → less xs ys ≡ true → less ys xs ≡ false
unfolding less
less_asym [] [] h = cc
less_asym [] (y ∷ ys) h = refl
less_asym (x ∷ xs) [] h = cc
less_asym (x ∷ xs) (y ∷ ys) h = ground (arith, less_asym xs ys)

pub put_last :
    (k : Bytes) (v : Value) (d : Entries) → IsAfter k d → put k v d ≡ joined d (entry k v leaf)
unfolding put
put_last k v leaf h = refl
put_last k v (entry j w d) h = rw (less_asym j k h.0, h.0, put_last k v d h.1) refl

pub joined_last :
    (k : Bytes) (v : Value) (d es : Entries)
    → joined (joined d (entry k v leaf)) es ≡ joined d (entry k v es)
joined_last k v leaf es = refl
joined_last k v (entry j w d) es = ap (entry j w) (joined_last k v d es)

IsAfter-last :
    (j k : Bytes) (v : Value) (d : Entries)
    → IsAfter j d
    → less k j ≡ true
    → IsAfter j (joined d (entry k v leaf))
IsAfter-last j k v leaf h l = (l, tt)
IsAfter-last j k v (entry i w d) h l = (h.0, IsAfter-last j k v d h.1 l)

pub AllAfter-last :
    (k : Bytes) (v : Value) (d es : Entries)
    → AllAfter d es
    → IsBefore k es
    → AllAfter (joined d (entry k v leaf)) es
AllAfter-last k v d leaf h l = tt
AllAfter-last k v d (entry j w es) h l =
    (IsAfter-last j k v d h.0 l.0, AllAfter-last k v d es h.1 l.1)

pub IsNatural-lt : (z : ℤ) → IsNatural z → magnitude z < 2 ^ 31
IsNatural-lt (pos n) h = h
IsNatural-lt (negsuc n) h = absurd h
