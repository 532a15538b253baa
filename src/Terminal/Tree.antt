-- ===== src/Terminal/Tree.antt =====
-- What the preview of a torrent file draws.
use ufo_torrent.Common.{
  ℕ, zero, suc, ◌+◌, ◌-◌, ◌≤◌, ◌<◌, max, Bool, true, false, ◌&&◌, List, [], ◌∷◌, ◌++◌, All, Bytes,
  Option, none, some, leb, beq, length, take, ◌≡◌, refl, sym, ap, subst, inl, inr, arith,
  Bool-cases, eq_of_beq, length-append, length-take, All-imp,
}
use ufo_torrent.Files.Path.{filename}
use ufo_torrent.Tracker.{has_prefix}
use ufo_torrent.Terminal.Preview.{
  Dir, Line, draw, display_files, is_child, display_each, display_tree, is_top, longest,
  display_all,
}

-- The lines stand one under the other, from the first position up to before the second.
abbrev pub IsRun : ℕ → ℕ → List Line → Type 0
IsRun from to [] = from ≡ to
IsRun from to (l ∷ ls) = (l.y ≡ from) × IsRun (suc from) to ls

IsRun-append : (a b c : ℕ) (ls ms : List Line) → IsRun a b ls → IsRun b c ms → IsRun a c (ls ++ ms)
IsRun-append a b c [] ms h k = subst (λ n. IsRun n c ms) (sym h) k
IsRun-append a b c (l ∷ ls) ms h k = (h.0, IsRun-append (suc a) b c ls ms h.1 k)

module _ (max_rows scroll_offset : ℕ) where
  -- Where a row is drawn; the rows above the content all fall on its first line, and are not drawn.
  abbrev pub place : ℕ → ℕ
  place row = row - scroll_offset + 2

  -- From the row on, lines are drawn one under the other, and none below the content.
  abbrev pub Draws : ℕ → Option (ℕ × List Line) → Type 0
  Draws row none = ⊥
  Draws row (some (last, lines)) =
      (row ≤ last)
      × (last ≤ max row (max_rows + scroll_offset))
      × IsRun (place row) (place last) lines

  draw-IsRun :
      (row depth : ℕ) (text : Bytes) (size : Option ℕ)
      → IsRun (place row) (place (row + 1)) (draw max_rows scroll_offset row depth text size)
  unfolding draw
  draw-IsRun row depth text size = elim (Bool-cases (leb scroll_offset row)) [
    | inl shown ↦ rw (shown, draw) (refl, ground (arith, shown))
    | inr above ↦ rw (above, draw) (ground (arith, above))
  ]

  display_files-Draws :
      (depth : ℕ) (files : List (Bytes × Option ℕ)) (row : ℕ)
      → Draws row (some (display_files max_rows scroll_offset depth files row))
  unfolding display_files
  display_files-Draws depth [] row = (omega arith, omega arith, refl)
  display_files-Draws depth ((name, size) ∷ files) row =
      elim (Bool-cases (leb (max_rows + scroll_offset) row)) [
        | inl below ↦ rw (below, display_files) (display_files-Draws depth files row)
        | inr room ↦
            let rest = display_files-Draws depth files (row + 1) in
            let inside : row < max_rows + scroll_offset = ground (arith, room) in
            rw (room, display_files)
              (
                omega (arith, rest.0),
                omega (arith, rest.1, inside),
                IsRun-append (place row) (place (row + 1)) _
                    (draw max_rows scroll_offset row depth name size) _
                    (draw-IsRun row depth name size) rest.2,
              )
      ]

  Draws-then :
      (row reached : ℕ) (lines : List Line) (next : Option (ℕ × List Line))
      → Draws row (some (reached, lines))
      → Draws reached next
      → Draws row (elim next [ none ↦ none | some (last, more) ↦ some (last, lines ++ more) ])
  Draws-then row reached lines none h k = k
  Draws-then row reached lines (some (last, more)) h k = (
    omega (arith, h.0, k.0),
    omega (arith, h.1, k.1),
    IsRun-append (place row) (place reached) (place last) lines more h.2 k.2,
  )

  Draws-three :
      (row first second : ℕ) (ls ms : List Line) (next : Option (ℕ × List Line))
      → Draws row (some (first, ls))
      → Draws first (some (second, ms))
      → Draws second next
      → Draws row (elim next [ none ↦ none | some (last, more) ↦ some (last, ls ++ (ms ++ more)) ])
  Draws-three row first second ls ms none h k l = l
  Draws-three row first second ls ms (some (last, more)) h k l =
      Draws-then row first ls (some (last, ms ++ more)) h
        (Draws-then first second ms (some (last, more)) k l)

  Option-Draws :
      (row : ℕ) (first : Option (ℕ × List Line)) (next : ℕ → Option (ℕ × List Line))
      → Draws row first
      → ((reached : ℕ) → Draws reached (next reached))
      → Draws row (elim first [
        | none ↦ none
        | some (reached, lines) ↦ elim (next reached) [
          | none ↦ none
          | some (last, more) ↦ some (last, lines ++ more)
        ]
      ])
  Option-Draws row none next h k = h
  Option-Draws row (some (reached, lines)) next h k =
      Draws-then row reached lines (next reached) h (k reached)

  display_each-Draws :
      (P : Dir → Type 0) (test : Dir → Bool) (display : Dir → ℕ → Option (ℕ × List Line))
      → ((d : Dir) → P d → test d ≡ true → (row : ℕ) → Draws row (display d row))
      → (ds : List Dir) → All P ds
      → (row : ℕ) → Draws row (display_each max_rows scroll_offset test display ds row)
  unfolding display_each
  display_each-Draws P test display f [] h row = (omega arith, omega arith, refl)
  display_each-Draws P test display f (d ∷ ds) h row = elim (Bool-cases (test d)) [
    | inl taken ↦
        rw (taken, display_each)
          (Option-Draws row (display d row) (display_each max_rows scroll_offset test display ds)
            (f d h.0 taken row) (display_each-Draws P test display f ds h.1))
    | inr skipped ↦ rw (skipped, display_each) (display_each-Draws P test display f ds h.1 row)
  ]

  and_left : (a b : Bool) → (a && b) ≡ true → a ≡ true
  and_left true b h = refl
  and_left false b h = h

  -- A directory below has a longer path.
  is_child-longer :
      (path : Bytes) (d : Dir)
      → is_child max_rows scroll_offset path d ≡ true
      → length path < length d.path
  unfolding is_child has_prefix
  is_child-longer path d h =
      let prefix = path ++ (b'/' ∷ []) in
      let starts : beq (take (length prefix) d.path) prefix ≡ true = and_left _ _ h in
      let same = ap length (eq_of_beq (take (length prefix) d.path) prefix starts) in
      omega (arith, same, length-take (length prefix) d.path, length-append path (b'/' ∷ []))

  -- Enough fuel is what the longest path has more than this one, and one.
  abbrev IsShort : ℕ → ℕ → Dir → Type 0
  IsShort fuel size e = length e.path < size + fuel

  display_tree-Draws :
      (fuel : ℕ) (tree : List Dir) (depth : ℕ) (d : Dir)
      → All (IsShort fuel (length d.path)) tree
      → 0 < fuel
      → (row : ℕ) → Draws row (display_tree max_rows scroll_offset fuel tree depth d row)
  unfolding display_tree
  display_tree-Draws zero tree depth d h positive row = absurd (omega arith)
  display_tree-Draws (suc fuel) tree depth d h positive row =
      elim (Bool-cases (leb (max_rows + scroll_offset) row)) [
        | inl below ↦ rw (below, display_tree) (omega arith, omega arith, refl)
        | inr room ↦
            let inside : row < max_rows + scroll_offset = ground (arith, room) in
            let (below, lines) =
              display_files max_rows scroll_offset (depth + 1) d.files (row + 1) in
            rw (room, display_tree)
              (Draws-three row (row + 1) below
                (draw max_rows scroll_offset row depth (filename d.path) none) lines _
                (omega arith, omega (arith, inside), draw-IsRun row depth (filename d.path) none)
                (display_files-Draws (depth + 1) d.files (row + 1))
                (display_each-Draws (IsShort (suc fuel) (length d.path))
                  (is_child max_rows scroll_offset d.path)
                  (display_tree max_rows scroll_offset fuel tree (depth + 1))
                  (λ e short child r.
                    let longer = is_child-longer d.path e child in
                    display_tree-Draws fuel tree (depth + 1) e
                      (All-imp tree (λ x s. omega (arith, s, longer)) h)
                      (omega (arith, short, longer)) r)
                  tree h below))
      ]

  longest-IsShort :
      (tree : List Dir) (size : ℕ)
      → longest max_rows scroll_offset tree < size
      → All (λ e. length e.path < size) tree
  longest-IsShort [] size h = tt
  longest-IsShort (d ∷ ds) size h = (omega (arith, h), longest-IsShort ds size (omega (arith, h)))

  -- The tree of the preview is drawn to its end, whatever the directories are: the recursion never runs
  -- out of fuel, the lines stand one under the other from the second line of the window on, no two in
  -- the same place, and there are at most as many as the content has rows.
  pub display_all-Draws : (tree : List Dir) → Draws 0 (display_all max_rows scroll_offset tree)
  unfolding display_all
  display_all-Draws tree =
      let size = suc (longest max_rows scroll_offset tree) in
      display_each-Draws (λ e. length e.path < size) (is_top max_rows scroll_offset)
        (display_tree max_rows scroll_offset size tree 0)
        (λ d short top row.
          display_tree-Draws size tree 0 d
            (All-imp tree (λ x s. omega (arith, s)) (longest-IsShort tree size (omega arith)))
            (omega arith) row)
        tree (longest-IsShort tree size (omega arith)) 0
