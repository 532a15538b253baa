-- ===== src/Bencode/Total.antt =====
-- The decoder ends on every input, within it, and reads no `int`.
use ufo_torrent.Common.{
  ℕ, zero, suc, ◌+◌, ◌-◌, ◌*◌, ◌≤◌, ◌<◌, Bool, true, false, not, ◌||◌, [], ◌∷◌, Bytes, Option, some,
  ◌==◌, if◌then◌else◌, length, is_empty, get_or, take, drop, ◌≡◌, refl, inl, inr, arith, Bool-cases,
  Option-cases, length-drop,
}
use ufo_torrent.Common.Decimal.{is_digit}
use ufo_torrent.Bencode.{
  Value, Values, Entries, int, unsigned, string, list, dict, leaf, entry, put,
}
use ufo_torrent.Bencode.Decode.{
  Decoding, returned, threw, out_of_fuel, ◌>>=◌, find_first, decode_text, decode_string, cast_int,
  decode_int, to_key, decode_value, decode_items, decode_entries, decode, stoi, first_digit,
}
use ufo_torrent.TorrentFile.Lengths.{NoInt, NoInts, NoIntEntries}

-- The call ends, and what it returns has the property.
abbrev pub Ends {ℓ} : {A : Type ℓ} → (A → Type 0) → Decoding A → Type 0
Ends P (returned a) = P a
Ends P (threw e) = Unit
Ends P Decoding.undefined = Unit
Ends P out_of_fuel = ⊥

Ends-bind {ℓ ℓ'} :
    {A : Type ℓ} {B : Type ℓ'} (P : A → Type 0) (Q : B → Type 0) (m : Decoding A)
    (f : A → Decoding B)
    → Ends P m
    → ((a : A) → P a → Ends Q (f a))
    → Ends Q (m >>= f)
Ends-bind P Q (returned a) f h k = k a h
Ends-bind P Q (threw e) f h k = tt
Ends-bind P Q Decoding.undefined f h k = tt
Ends-bind P Q out_of_fuel f h k = absurd h

Ends-imp {ℓ} :
    {A : Type ℓ} (P Q : A → Type 0) (m : Decoding A) → Ends P m → ((a : A) → P a → Q a) → Ends Q m
Ends-imp P Q (returned a) h f = f a h
Ends-imp P Q (threw e) h f = tt
Ends-imp P Q Decoding.undefined h f = tt
Ends-imp P Q out_of_fuel h f = absurd h

Ends-if {ℓ} :
    {A : Type ℓ} (P : A → Type 0) (b : Bool) (x y : Decoding A)
    → (b ≡ true → Ends P x)
    → (b ≡ false → Ends P y)
    → Ends P (if b then x else y)
Ends-if P true x y h k = h refl
Ends-if P false x y h k = k refl

-- What was read is nonempty and inside the input.
abbrev Reaches : Bytes → Value × ℕ → Type 0
Reaches s r = NoInt r.0 × (1 ≤ r.1) × (r.1 ≤ length s)

find_first-lt : (c : ℕ) (s : Bytes) {i : ℕ} → find_first c s ≡ some i → i < length s
unfolding find_first
find_first-lt c [] h = cc
find_first-lt c (b ∷ s) {i} h = elim (Bool-cases (b == c)) [
  | inl same ↦ ground (arith, same, h)
  | inr other ↦ elim (Option-cases (find_first c s)) [
    | inl nowhere ↦ absurd (ground (arith, other, nowhere, h))
    | inr (j, found) ↦ ground (arith, other, found, h, find_first-lt c s found)
  ]
]

decode_int-Ends :
    (cast : Bytes → Option ℕ) (s : Bytes)
    → Ends (λ (r : ℕ × ℕ). (1 ≤ r.1) × (r.1 ≤ length s)) (decode_int cast s)
unfolding decode_int cast_int
decode_int-Ends cast s = elim (Option-cases (find_first b'e' s)) [
  | inl nowhere ↦ rw (nowhere, decode_int) tt
  | inr (e, found) ↦ elim (Option-cases (cast (take (e - 1) (drop 1 s)))) [
    | inl bad ↦ rw (found, decode_int, cast_int, bad) tt
    | inr (n, good) ↦
        rw (found, decode_int, cast_int, good)
          (omega arith, omega (arith, find_first-lt b'e' s found))
  ]
]

decode_text-Ends :
    (s : Bytes) (digits size : ℕ)
    → Ends (λ (r : Bytes × ℕ). (1 ≤ r.1) × (r.1 ≤ length s)) (decode_text s digits size)
unfolding decode_text
decode_text-Ends s digits size = ground arith

decode_string-Ends :
    (s : Bytes) → Ends (λ (r : Bytes × ℕ). (1 ≤ r.1) × (r.1 ≤ length s)) (decode_string s)
unfolding decode_string stoi
decode_string-Ends s =
    let text = λ (size : ℕ). decode_text-Ends s (length (first_digit [] s)) size in
    elim (Bool-cases (is_empty s || not (is_digit (get_or s 0 0)))) [
      | inl bad ↦ rw (bad) tt
      | inr good ↦ rw (good) (
          Ends-bind (λ (n : ℕ). Unit {0}) _ (stoi (first_digit [] s)) _ (ground arith)
            (λ size _. text size))
    ]

put-NoInt :
    (k : Bytes) (v : Value) (d : Entries) → NoInt v → NoIntEntries d → NoIntEntries (put k v d)
unfolding put
put-NoInt k v leaf h o = (h, tt)
put-NoInt k v (entry j w d) h o = ground (arith, put-NoInt k v d h o.1)

to_key-Ends : (v : Value) → Ends (λ (k : Bytes). Unit {0}) (to_key v)
unfolding to_key
to_key-Ends (int z) = tt
to_key-Ends (unsigned n) = tt
to_key-Ends (string k) = tt
to_key-Ends (list vs) = tt
to_key-Ends (dict es) = tt

drop_one : (s : Bytes) → is_empty s ≡ false → length s ≡ suc (length (drop 1 s))
drop_one [] h = cc
drop_one (c ∷ s) h = refl

-- What a loop returns beside the index that it has reached: the index is inside the input.
abbrev ReachesFrom : ℕ → Bytes → ℕ → Type 0
ReachesFrom i s n = (i ≤ n) × (n ≤ i + length s)

mutual
  unfolding decode_value

  decode_value-Ends :
      (cast : Bytes → Option ℕ) (f : ℕ) (s : Bytes)
      → 2 * length s + 1 ≤ f
      → Ends (Reaches s) (decode_value cast f s)
  decode_value-Ends cast zero s h = absurd (omega arith)
  decode_value-Ends cast (suc f) s h =
      Ends-if (Reaches s) (is_empty s) _ _ (λ _. tt)
        λ more.
          let shorter = drop_one s more in
          Ends-if (Reaches s) (get_or s 0 0 == b'i') _ _
            (λ _.
              Ends-bind (λ (r : ℕ × ℕ). (1 ≤ r.1) × (r.1 ≤ length s)) (Reaches s)
                (decode_int cast s) _ (decode_int-Ends cast s) (λ (z, n) r. (tt, r.0, r.1)))
            λ _.
              Ends-if (Reaches s) (get_or s 0 0 == b'l') _ _
                (λ _.
                  Ends-bind (λ (r : Values × ℕ). NoInts r.0 × ReachesFrom 1 (drop 1 s) r.1)
                    (Reaches s) (decode_items cast f (drop 1 s) 1) _
                    (decode_items-Ends cast f (drop 1 s) 1 (omega (arith, shorter)))
                    (λ (vs, n) r. (r.0, r.1.0, omega (arith, r.1, shorter))))
                λ _.
                  Ends-if (Reaches s) (get_or s 0 0 == b'd') _ _
                    (λ _.
                      Ends-bind
                        (λ (r : Entries × ℕ). NoIntEntries r.0 × ReachesFrom 1 (drop 1 s) r.1)
                        (Reaches s) (decode_entries cast f (drop 1 s) 1 leaf) _
                        (decode_entries-Ends cast f (drop 1 s) 1 leaf tt (omega (arith, shorter)))
                        (λ (d, n) r. (r.0, r.1.0, omega (arith, r.1, shorter))))
                    λ _.
                      Ends-bind (λ (r : Bytes × ℕ). (1 ≤ r.1) × (r.1 ≤ length s)) (Reaches s)
                        (decode_string s) _ (decode_string-Ends s) (λ (t, n) r. (tt, r.0, r.1))

  decode_items-Ends :
      (cast : Bytes → Option ℕ) (f : ℕ) (s : Bytes) (i : ℕ)
      → 2 * length s + 2 ≤ f
      → Ends (λ (r : Values × ℕ). NoInts r.0 × ReachesFrom i s r.1) (decode_items cast f s i)
  decode_items-Ends cast zero s i h = absurd (omega arith)
  decode_items-Ends cast (suc f) s i h = elim (Bool-cases (is_empty s)) [
    | inl empty ↦ rw empty (tt, (omega arith, omega arith))
    | inr more ↦ elim (Bool-cases (get_or s 0 0 == b'e')) [
      | inl ends ↦ rw (more, ends) (tt, (omega arith, omega (arith, drop_one s more)))
      | inr other ↦
          rw (more, other)
            (Ends-bind (Reaches s) _ (decode_value cast f s) _
              (decode_value-Ends cast f s (omega arith))
              λ (v, n) r.
                let left = length-drop n s in
                Ends-bind (λ (q : Values × ℕ). NoInts q.0 × ReachesFrom (i + n) (drop n s) q.1) _
                  (decode_items cast f (drop n s) (i + n)) _
                  (decode_items-Ends cast f (drop n s) (i + n) (omega (arith, left, r.1, r.2)))
                  λ (vs, m) q.
                    ((r.0, q.0), (omega (arith, q.1), omega (arith, left, r.1, r.2, q.1))))
    ]
  ]

  decode_entries-Ends :
      (cast : Bytes → Option ℕ) (f : ℕ) (s : Bytes) (i : ℕ) (d : Entries)
      → NoIntEntries d
      → 2 * length s + 2 ≤ f
      → Ends
          (λ (r : Entries × ℕ). NoIntEntries r.0 × ReachesFrom i s r.1)
          (decode_entries cast f s i d)
  decode_entries-Ends cast zero s i d o h = absurd (omega arith)
  decode_entries-Ends cast (suc f) s i d o h = elim (Bool-cases (is_empty s)) [
    | inl empty ↦ rw empty (o, (omega arith, omega arith))
    | inr more ↦ elim (Bool-cases (get_or s 0 0 == b'e')) [
      | inl ends ↦ rw (more, ends) (o, (omega arith, omega (arith, drop_one s more)))
      | inr other ↦
          rw (more, other)
            (Ends-bind (Reaches s) _ (decode_value cast f s) _
              (decode_value-Ends cast f s (omega arith))
              λ (k, n) r.
                let left = length-drop n s in
                Ends-bind (λ (key : Bytes). Unit {0}) _ (to_key k) _ (to_key-Ends k)
                  λ key _.
                    Ends-bind (Reaches (drop n s)) _ (decode_value cast f (drop n s)) _
                      (decode_value-Ends cast f (drop n s) (omega (arith, left, r.1)))
                      λ (v, m) q.
                        let rest = length-drop m (drop n s) in
                        let done =
                          decode_entries-Ends cast f (drop m (drop n s)) (i + n + m) (put key v d)
                            (put-NoInt key v d q.0 o) (omega (arith, left, rest, r.1, q.1)) in
                        Ends-imp _ _
                          (decode_entries cast f (drop m (drop n s)) (i + n + m) (put key v d)) done
                          (λ (es, j) w. (
                            w.0,
                            (
                              omega (arith, w.1),
                              omega (arith, w.1, left, rest, r.1, r.2, q.1, q.2),
                            ),
                          )))
    ]
  ]

-- `decode` ends on every input, whatever `boost::lexical_cast` answers, and a value that it returns holds no `int`.
pub decode-Ends : (cast : Bytes → Option ℕ) (s : Bytes) → Ends NoInt (decode cast s)
unfolding decode
decode-Ends cast s =
    Ends-bind (Reaches s) NoInt (decode_value cast (2 * length s + 1) s) _
      (decode_value-Ends cast (2 * length s + 1) s (omega arith)) (λ (v, n) r. r.0)
