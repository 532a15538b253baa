-- ===== src/Terminal/Window.antt =====
-- src/main.cpp: which names the dialog draws. A number of rows below zero draws nothing, as a
-- number that stops at zero does.
use ufo_torrent.Common.{
  ℕ, zero, suc, ◌+◌, ◌-◌, ◌≤◌, ◌<◌, min, Bool, true, List, [], ◌∷◌, Bytes, none, some, leb, ◌==◌,
  if◌then◌else◌, length, get_elem?, ◌≡◌, refl, sym, ap, subst, ◌∙◌, arith, ==_refl,
}

-- A line of the dialog: where it stands, the name, and whether it is drawn in reverse.
pub record Row : Type 0 where
  pub y : ℕ
  pub text : Bytes
  pub reversed : Bool

-- `startIndex`, from the height of the dialog; four lines of it are for the frame and the message.
unfoldable pub start_index : ℕ → ℕ → ℕ
start_index height selected = if leb height (selected + 4) then selected + 4 + 1 - height else 0

-- `numRows`.
unfoldable pub num_rows : ℕ → List Bytes → ℕ → ℕ
unfolding start_index
num_rows height files selected = min (length files - start_index height selected) (height - 4)

-- The rows of the names from an index on, from a line of the dialog on, so many of them.
unfoldable pub draw_rows : List Bytes → ℕ → ℕ → ℕ → ℕ → List Row
draw_rows files selected index y zero = []
draw_rows files selected index y (suc rows) =
    let rest = draw_rows files selected (suc index) (suc y) rows in
    elim (get_elem? files index) [
      | none ↦ rest
      | some name ↦ record { y = y; text = name; reversed = index == selected } ∷ rest
    ]

unfoldable pub drawn : ℕ → List Bytes → ℕ → List Row
unfolding num_rows draw_rows
drawn height files selected =
    draw_rows files selected (start_index height selected) 2 (num_rows height files selected)

get_elem?-some :
    (files : List Bytes) (i : ℕ)
    → i < length files
    → (name : Bytes) × (get_elem? files i ≡ some name)
get_elem?-some [] i h = absurd (omega arith)
get_elem?-some (name ∷ files) zero h = (name, refl)
get_elem?-some (name ∷ files) (suc i) h = get_elem?-some files i (omega arith)

draw_rows-here :
    (files : List Bytes) (selected index y rows k r : ℕ) (name : Bytes)
    → index ≡ k
    → y ≡ r
    → get_elem? files k ≡ some name
    → get_elem? (draw_rows files selected index y (suc rows)) 0
      ≡ some (record { y = r; text = name; reversed = k == selected })
unfolding draw_rows
draw_rows-here files selected index y rows k r name e u at =
    let here = subst (λ n. get_elem? files n ≡ some name) (sym e) at in
    rw (← e, ← u) (rw (draw_rows, here) refl)

-- Where all names are in bounds, each has its row.
draw_rows-get_elem? :
    (files : List Bytes) (selected index y rows j k r : ℕ) (name : Bytes)
    → index + rows ≤ length files
    → j < rows
    → index + j ≡ k
    → y + j ≡ r
    → get_elem? files k ≡ some name
    → get_elem? (draw_rows files selected index y rows) j
      ≡ some (record { y = r; text = name; reversed = k == selected })
unfolding draw_rows
draw_rows-get_elem? files selected index y zero j k r name h l e u at = absurd (omega arith)
draw_rows-get_elem? files selected index y (suc rows) zero k r name h l e u at =
    draw_rows-here files selected index y rows k r name (omega arith) (omega arith) at
draw_rows-get_elem? files selected index y (suc rows) (suc j) k r name h l e u at =
    let (first, here) = get_elem?-some files index (omega arith) in
    let later =
      draw_rows-get_elem? files selected (suc index) (suc y) rows j k r name (omega arith)
        (omega arith) (omega arith) (omega arith) at in
    rw (draw_rows, here) later

-- Where the dialog has room for a name and the selection is on one, it is drawn, in reverse, and
-- inside the frame.
pub drawn-selected :
    (height : ℕ) (files : List Bytes) (selected : ℕ)
    → 4 < height
    → selected < length files
    → (j : ℕ) × (name : Bytes) × (get_elem? files selected ≡ some name)
      × (get_elem? (drawn height files selected) j
          ≡ some (record { y = 2 + j; text = name; reversed = true }))
      × (2 + j < height - 2)
unfolding drawn num_rows start_index
drawn-selected height files selected room inside =
    let (name, at) = get_elem?-some files selected inside in
    let start = if leb height (selected + 4) then selected + 4 + 1 - height else 0 in
    let bounds : (start ≤ selected) × (selected < start + (height - 4)) = ground arith in
    let j = selected - start in
    let row =
      draw_rows-get_elem? files selected start 2 (num_rows height files selected) j selected (2 + j)
        name (omega arith) (omega arith) (omega arith) refl at in
    (
      j,
      name,
      at,
      row ∙ ap (λ b. some (record { y = 2 + j; text = name; reversed = b })) (==_refl selected),
      omega arith,
    )
