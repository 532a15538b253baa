-- ===== src/Terminal/Sorting.antt =====
-- The order in which the dialog lists its names.
use mathlib.Core.List.{Perm}
use mathlib.Core.List.Perm
use ufo_torrent.Common.{
  suc, false, List, [], ◌∷◌, All, Bytes, length, ◌≡◌, refl, ap, ◌∙◌, inl, inr, arith, Bool-cases,
}
use ufo_torrent.Bencode.{less}
use ufo_torrent.Bencode.Order.{less_asym}
use ufo_torrent.Terminal.Dialog.{to_low, insert_name, sort_names}

-- The second name may stand behind the first.
abbrev pub MayFollow : Bytes → Bytes → Type 0
MayFollow x y = less (to_low y) (to_low x) ≡ false

-- Every name may stand behind each that is before it.
abbrev pub IsSorted : List Bytes → Type 0
IsSorted [] = Unit
IsSorted (x ∷ xs) = All (MayFollow x) xs × IsSorted xs

less_trans_false : (a b c : Bytes) → less b a ≡ false → less c b ≡ false → less c a ≡ false
unfolding less
less_trans_false [] b [] h k = refl
less_trans_false [] [] (z ∷ c) h k = refl
less_trans_false [] (y ∷ b) (z ∷ c) h k = refl
less_trans_false (x ∷ a) [] [] h k = h
less_trans_false (x ∷ a) (y ∷ b) [] h k = k
less_trans_false (x ∷ a) [] (z ∷ c) h k = cc
less_trans_false (x ∷ a) (y ∷ b) (z ∷ c) h k = ground (arith, less_trans_false a b c)

MayFollow-All :
    (x y : Bytes) (zs : List Bytes) → MayFollow x y → All (MayFollow y) zs → All (MayFollow x) zs
MayFollow-All x y [] h k = tt
MayFollow-All x y (z ∷ zs) h k =
    (less_trans_false (to_low x) (to_low y) (to_low z) h k.0, MayFollow-All x y zs h k.1)

pub All-insert_name {κ} :
    (P : Bytes → Type κ) (x : Bytes) (ys : List Bytes) → P x → All P ys → All P (insert_name x ys)
unfolding insert_name
All-insert_name P x [] h k = (h, tt)
All-insert_name P x (y ∷ ys) h k = elim (Bool-cases (less (to_low y) (to_low x))) [
  | inl e ↦ rw e ((k.0, All-insert_name P x ys h k.1))
  | inr e ↦ rw e ((h, k))
]

pub All-sort_names {κ} : (P : Bytes → Type κ) (xs : List Bytes) → All P xs → All P (sort_names xs)
unfolding sort_names
All-sort_names P [] h = tt
All-sort_names P (x ∷ xs) h = All-insert_name P x (sort_names xs) h.0 (All-sort_names P xs h.1)

insert_name-Perm : (x : Bytes) (ys : List Bytes) → Perm (insert_name x ys) (x ∷ ys)
unfolding insert_name
insert_name-Perm x [] = Perm.rfl
insert_name-Perm x (y ∷ ys) = elim (Bool-cases (less (to_low y) (to_low x))) [
  | inl e ↦ rw e (Perm.trans (Perm.cons y (insert_name-Perm x ys)) (Perm.swap x y ys))
  | inr e ↦ rw e (Perm.rfl)
]

insert_name-IsSorted : (x : Bytes) (ys : List Bytes) → IsSorted ys → IsSorted (insert_name x ys)
unfolding insert_name
insert_name-IsSorted x [] s = (tt, tt)
insert_name-IsSorted x (y ∷ ys) s = elim (Bool-cases (less (to_low y) (to_low x))) [
  | inl h ↦ rw h (
    All-insert_name (MayFollow y) x ys (less_asym (to_low y) (to_low x) h) s.0,
    insert_name-IsSorted x ys s.1,
  )
  | inr h ↦ rw h ((h, MayFollow-All x y ys h s.0), s)
]

-- The names come out in an order that the comparison of their lower case allows, and they are the names
-- that went in, none lost and none repeated.
pub sort_names-IsSorted : (xs : List Bytes) → Perm (sort_names xs) xs × IsSorted (sort_names xs)
unfolding sort_names
sort_names-IsSorted [] = (Perm.rfl, tt)
sort_names-IsSorted (x ∷ xs) =
    let (perm, sorted) = sort_names-IsSorted xs in
    (
      Perm.trans (insert_name-Perm x (sort_names xs)) (Perm.cons x perm),
      insert_name-IsSorted x (sort_names xs) sorted,
    )

length-insert_name : (x : Bytes) (ys : List Bytes) → length (insert_name x ys) ≡ suc (length ys)
unfolding insert_name
length-insert_name x [] = refl
length-insert_name x (y ∷ ys) = elim (Bool-cases (less (to_low y) (to_low x))) [
  | inl e ↦ rw e (ap suc (length-insert_name x ys))
  | inr e ↦ rw e (refl)
]

pub length-sort_names : (xs : List Bytes) → length (sort_names xs) ≡ length xs
unfolding sort_names
length-sort_names [] = refl
length-sort_names (x ∷ xs) = length-insert_name x (sort_names xs) ∙ ap suc (length-sort_names xs)
