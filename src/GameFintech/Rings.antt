-- ===== src/GameFintech/Rings.antt =====
-- The ring search for a free cell finds one within its rings.
use psycho_space.Prelude.{
  ℕ, zero, suc, ◌+◌, ◌*◌, ◌-◌, ◌/◌, ◌%◌, ◌<◌, ◌≤◌, ◌≡◌, Bool, false, Option, some, arith, inl, inr,
  Option-cases, Bool-cases, ◌||◌, ltb,
}
use psycho_space.GameFintech.Grid.{
  nav_cols, cell_at, ring_cell, ring_row, ring, rings, nav_nearest_free, nav_start_cell,
}

module _ (col row : ℕ) where
  -- A cell stands at most so many columns and rows away.
  abbrev pub IsWithin : ℕ → ℕ → Type 0
  IsWithin d n =
      (col ≤ n % nav_cols + d)
      × (n % nav_cols ≤ col + d)
      × (row ≤ n / nav_cols + d)
      × (n / nav_cols ≤ row + d)

  cell_at-IsWithin :
      (k i j n : ℕ)
      → k ≤ 4
      → i ≤ 2 * k
      → j ≤ 2 * k
      → k ≤ col + j
      → k ≤ row + i
      → cell_at (col + j - k) (row + i - k) ≡ some n
      → IsWithin 4 n
  unfolding cell_at
  cell_at-IsWithin k i j n b bi bj ej ei e =
      let narrow : col + j - k < 32 = ground (arith, e) in
      let same : n ≡ (row + i - k) * 32 + (col + j - k) = ground (arith, e) in
      let across : n % 32 ≡ col + j - k = omega (arith, narrow, same) in
      let down : n / 32 ≡ row + i - k = omega (arith, narrow, same) in
      (omega (arith, across), omega (arith, across), omega (arith, down), omega (arith, down))

module _ (free : ℕ → Bool) (col row : ℕ) where
  -- What is found is within four.
  abbrev AllWithin : Option ℕ → Type 0
  AllWithin o = (n : ℕ) → o ≡ some n → IsWithin col row 4 n

  ring_cell-IsWithin :
      (k i j : ℕ) → k ≤ 4 → i ≤ 2 * k → j ≤ 2 * k → AllWithin (ring_cell free col row k i j)
  unfolding ring_cell
  ring_cell-IsWithin k i j b bi bj n e = elim (Option-cases (cell_at (col + j - k) (row + i - k))) [
    | inl off ↦ absurd (ground (arith, e, off))
    | inr (m, on_grid) ↦
        let inside : ltb (col + j) k || ltb (row + i) k ≡ false = ground (arith, e, on_grid) in
        let same : m ≡ n = ground (arith, e, on_grid) in
        cell_at-IsWithin col row k i j n b bi bj (ground (arith, inside)) (ground (arith, inside))
          (ground (arith, on_grid, same))
  ]

  ring_row-IsWithin :
      (k i j left : ℕ)
      → k ≤ 4
      → i ≤ 2 * k
      → j + left ≤ 2 * k + 1
      → AllWithin (ring_row free col row k i j left)
  unfolding ring_row
  ring_row-IsWithin k i j zero b bi bj n e = absurd (ground (arith, e))
  ring_row-IsWithin k i j (suc left) b bi bj n e =
      elim (Option-cases (ring_cell free col row k i j)) [
        | inl off ↦
            ring_row-IsWithin k i (j + 1) left b bi (omega (arith, bj)) n (ground (arith, e, off))
        | inr (m, on) ↦ ring_cell-IsWithin k i j b bi (omega (arith, bj)) n (ground (arith, e, on))
      ]

  ring-IsWithin :
      (k i left : ℕ) → k ≤ 4 → i + left ≤ 2 * k + 1 → AllWithin (ring free col row k i left)
  unfolding ring
  ring-IsWithin k i zero b bi n e = absurd (ground (arith, e))
  ring-IsWithin k i (suc left) b bi n e =
      elim (Option-cases (ring_row free col row k i 0 (2 * k + 1))) [
        | inl off ↦ ring-IsWithin k (i + 1) left b (omega (arith, bi)) n (ground (arith, e, off))
        | inr (m, on) ↦
            ring_row-IsWithin k i 0 (2 * k + 1) b (omega (arith, bi)) (omega arith) n
              (ground (arith, e, on))
      ]

  rings-IsWithin : (k left : ℕ) → k + left ≤ 5 → AllWithin (rings free col row k left)
  unfolding rings
  rings-IsWithin k zero b n e = absurd (ground (arith, e))
  rings-IsWithin k (suc left) b n e = elim (Option-cases (ring free col row k 0 (2 * k + 1))) [
    | inl off ↦ rings-IsWithin (k + 1) left (omega (arith, b)) n (ground (arith, e, off))
    | inr (m, on) ↦
        ring-IsWithin k 0 (2 * k + 1) (omega (arith, b)) (omega arith) n (ground (arith, e, on))
  ]

  pub nav_start_cell-IsWithin : col < nav_cols → AllWithin (nav_start_cell free col row)
  unfolding nav_start_cell nav_nearest_free
  nav_start_cell-IsWithin b n e = elim (Bool-cases (free (row * nav_cols + col))) [
    | inl here ↦
        let same : n ≡ row * 32 + col = ground (arith, e, here) in
        let across : n % 32 ≡ col = omega (arith, same, b) in
        let down : n / 32 ≡ row = omega (arith, same, b) in
        (omega (arith, across), omega (arith, across), omega (arith, down), omega (arith, down))
    | inr there ↦ rings-IsWithin 1 4 (omega arith) n (ground (arith, e, there))
  ]
