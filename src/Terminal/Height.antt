-- ===== src/Terminal/Height.antt =====
-- src/main.cpp: the height of the window of the path, `calculate_path_height` of `fileDialog`.
use native.Mathlib.Nat.{suc-mul, zero-mul}
use ufo_torrent.Common.{
  ℕ, zero, suc, ◌+◌, ◌-◌, ◌*◌, ◌%◌, ◌^◌, ◌≤◌, ◌<◌, max, Option, none, some, ltb, if◌then◌else◌, ◌≡◌,
  refl, sym, ap, subst, ◌∙◌, ◌⊎◌, inl, inr, arith, Bool-cases, lt→ltb,
}

-- `pos += max_width` on a `size_t`, where `max_width` is `COLS - 4` and may be below zero.
unfoldable pub advance : ℕ → ℕ → ℕ
advance cols pos = (pos + cols + 2 ^ 64 - 4) % 2 ^ 64

-- The loop that counts the lines of a text of the given length, on fuel.
unfoldable pub count_lines : ℕ → ℕ → ℕ → ℕ → ℕ → Option ℕ
unfolding advance
count_lines zero cols len pos lines = none
count_lines (suc fuel) cols len pos lines =
    let rest = count_lines fuel cols len (advance cols pos) (suc lines) in
    if ltb pos len then rest else some lines

-- `calculate_path_height`, on the lengths of the path and of the message.
unfoldable pub calculate_path_height : ℕ → ℕ → ℕ → ℕ → Option ℕ
unfolding count_lines
calculate_path_height fuel cols path error = elim (count_lines fuel cols path 0 1) [
  | none ↦ none
  | some lines ↦ elim (count_lines fuel cols error 0 lines) [
    | none ↦ none
    | some lines' ↦ some (max (lines' + 2) 3)
  ]
]

-- So many steps of a width cover the length, and one step fewer does not.
abbrev pub Covers : ℕ → ℕ → ℕ → Type 0
Covers width len steps = (len ≤ steps * width) × (steps * width < len + width)

Covers-suc :
    (width len steps : ℕ)
    → 0 < width
    → 0 < len
    → Covers width (len - width) steps
    → Covers width len (suc steps)
Covers-suc width len zero w l h = omega (arith, h.0, h.1, suc-mul zero width, zero-mul width)
Covers-suc width len (suc steps) w l h =
    omega (arith, h.0, h.1, suc-mul (suc steps) width, suc-mul steps width)

-- No position on the way wraps around.
count_lines-Covers :
    (fuel cols len pos lines : ℕ)
    → 4 < cols
    → cols < 2 ^ 31
    → len < 2 ^ 63
    → len - pos < fuel
    → (steps : ℕ) × (count_lines fuel cols len pos lines ≡ some (lines + steps))
      × Covers (cols - 4) (len - pos) steps
unfolding count_lines advance
count_lines-Covers zero cols len pos lines w c l f = absurd (omega arith)
count_lines-Covers (suc fuel) cols len pos lines w c l f = elim (Bool-cases (ltb pos len)) [
  | inl h ↦
      let inside : pos < len = grind arith in
      let next : advance cols pos ≡ pos + (cols - 4) = omega arith in
      let (steps, returned, covers) =
        count_lines-Covers fuel cols len (advance cols pos) (suc lines) w c l
          (omega (arith, next, inside)) in
      let left : len - advance cols pos ≡ len - pos - (cols - 4) = omega (arith, next) in
      rw h (
        suc steps,
        returned ∙ ap some (omega arith),
        Covers-suc (cols - 4) (len - pos) steps (omega arith) (omega (arith, inside))
            (subst (λ n. Covers (cols - 4) n steps) left covers),
      )
  | inr h ↦ rw h (
    0,
    ap some (omega arith),
    let outside : len ≤ pos = grind arith in omega (arith, zero-mul (cols - 4), outside),
  )
]

count_lines-whole :
    (fuel cols len lines : ℕ)
    → 4 < cols
    → cols < 2 ^ 31
    → len < 2 ^ 63
    → len < fuel
    → (steps : ℕ) × (count_lines fuel cols len 0 lines ≡ some (lines + steps))
      × Covers (cols - 4) len steps
count_lines-whole fuel cols len lines w c l f =
    let (steps, returned, covers) = count_lines-Covers fuel cols len 0 lines w c l (omega arith) in
    (steps, returned, subst (λ n. Covers (cols - 4) n steps) (omega arith) covers)

calculate_path_height-Covers :
    (fuel cols path error : ℕ)
    → 4 < cols
    → cols < 2 ^ 31
    → path < fuel
    → error < fuel
    → fuel < 2 ^ 63
    → (m : ℕ) × (n : ℕ) × (calculate_path_height fuel cols path error ≡ some (3 + m + n))
      × Covers (cols - 4) path m
      × Covers (cols - 4) error n
unfolding calculate_path_height
calculate_path_height-Covers fuel cols path error w c p e b =
    let (m, first, path_covers) = count_lines-whole fuel cols path 1 w c (omega arith) p in
    let (n, second, error_covers) = count_lines-whole fuel cols error (1 + m) w c (omega arith) e in
    (
      m,
      n,
      rw (calculate_path_height, first, second) (ap some (omega arith)),
      path_covers,
      error_covers,
    )

count_lines-loops : (fuel len lines : ℕ) → 0 < len → count_lines fuel 4 len 0 lines ≡ none
unfolding count_lines advance
count_lines-loops zero len lines l = refl
count_lines-loops (suc fuel) len lines l =
    rw (lt→ltb 0 len l) (count_lines-loops fuel len (suc lines) l)

-- On a terminal of four columns or more, for a path that is not empty: either there are exactly four
-- and the loop over the path never ends, or enough fuel gives three lines and, for the path and for
-- the message, as many as it takes at a width of four columns fewer, rounded up.
pub calculate_path_height_cases :
    (fuel cols path error : ℕ)
    → 4 ≤ cols
    → cols < 2 ^ 31
    → 0 < path
    → path < fuel
    → error < fuel
    → fuel < 2 ^ 63
    → ((cols ≡ 4) × ((more : ℕ) → calculate_path_height more cols path error ≡ none))
      ⊎ ((m : ℕ) × (n : ℕ) × (calculate_path_height fuel cols path error ≡ some (3 + m + n))
          × Covers (cols - 4) path m
          × Covers (cols - 4) error n)
unfolding calculate_path_height
calculate_path_height_cases fuel cols path error w c some_path p e b =
    elim (Bool-cases (ltb 4 cols)) [
      | inl wide ↦
          inr (calculate_path_height-Covers fuel cols path error (ground (arith, wide)) c p e b)
      | inr narrow ↦
          let four : cols ≡ 4 = ground (arith, narrow, w) in
          inl (
            four,
            λ more.
                subst (λ n. calculate_path_height more n path error ≡ none) (sym four)
                  (rw (calculate_path_height, count_lines-loops more path 1 some_path) refl),
          )
    ]
