-- ===== src/GameFintech/Searched.antt =====
-- The ring search for a free cell passes over none that is there.
use psycho_space.Prelude.{
  ℕ, zero, suc, ◌+◌, ◌*◌, ◌-◌, ◌/◌, ◌%◌, ◌<◌, ◌≤◌, ◌≡◌, ◌⊎◌, Bool, true, false, none, some, arith,
  inl, inr, Option-cases, Bool-cases, ◌==◌, ◌&&◌, ◌||◌, ltb,
}
use psycho_space.GameFintech.Grid.{
  nav_cols, nav_cells, cell_at, ring_cell, ring_row, ring, rings, nav_nearest_free, nav_start_cell,
}
use psycho_space.GameFintech.Rings.{IsWithin}

module _ (free : ℕ → Bool) (col row : ℕ) where
  -- A search that finds nothing has passed over each of its cells.
  ring_row-none :
      (k i j left at : ℕ)
      → ring_row free col row k i j left ≡ none
      → j ≤ at
      → at < j + left
      → ring_cell free col row k i at ≡ none
  unfolding ring_row
  ring_row-none k i j zero at e low high = absurd (omega (arith, low, high))
  ring_row-none k i j (suc left) at e low high =
      elim (Option-cases (ring_cell free col row k i j)) [
        | inl off ↦ elim (Bool-cases (j == at)) [
          | inl here ↦ let same : j ≡ at = ground (arith, here) in rw (← same) off
          | inr on ↦
              ring_row-none k i (j + 1) left at (ground (arith, e, off)) (ground (arith, low, on))
                (omega (arith, high))
        ]
        | inr (m, on) ↦ absurd (ground (arith, e, on))
      ]

  ring-none :
      (k i left at : ℕ)
      → ring free col row k i left ≡ none
      → i ≤ at
      → at < i + left
      → ring_row free col row k at 0 (2 * k + 1) ≡ none
  unfolding ring
  ring-none k i zero at e low high = absurd (omega (arith, low, high))
  ring-none k i (suc left) at e low high =
      elim (Option-cases (ring_row free col row k i 0 (2 * k + 1))) [
        | inl off ↦ elim (Bool-cases (i == at)) [
          | inl here ↦ let same : i ≡ at = ground (arith, here) in rw (← same) off
          | inr on ↦
              ring-none k (i + 1) left at (ground (arith, e, off)) (ground (arith, low, on))
                (omega (arith, high))
        ]
        | inr (m, on) ↦ absurd (ground (arith, e, on))
      ]

  rings-none :
      (k left at : ℕ)
      → rings free col row k left ≡ none
      → k ≤ at
      → at < k + left
      → ring free col row at 0 (2 * at + 1) ≡ none
  unfolding rings
  rings-none k zero at e low high = absurd (omega (arith, low, high))
  rings-none k (suc left) at e low high = elim (Option-cases (ring free col row k 0 (2 * k + 1))) [
    | inl off ↦ elim (Bool-cases (k == at)) [
      | inl here ↦ let same : k ≡ at = ground (arith, here) in rw (← same) off
      | inr on ↦
          rings-none (k + 1) left at (ground (arith, e, off)) (ground (arith, low, on))
            (omega (arith, high))
    ]
    | inr (m, on) ↦ absurd (ground (arith, e, on))
  ]

  -- A free cell on the edge of a ring is not passed over.
  ring_cell-edge :
      (k i j n : ℕ)
      → col + j ≡ n % nav_cols + k
      → row + i ≡ n / nav_cols + k
      → n < nav_cells
      → free n ≡ true
      → (i == 0 || i == 2 * k) || (j == 0 || j == 2 * k) ≡ true
      → ring_cell free col row k i j ≡ some n
  unfolding ring_cell cell_at
  ring_cell-edge k i j n across down b f edge =
      let c : col + j - k ≡ n % 32 = omega (arith, across) in
      let r : row + i - k ≡ n / 32 = omega (arith, down) in
      let narrow : n % 32 < 32 = omega arith in
      let low : n / 32 < 44 = omega (arith, b) in
      let same : (n / 32) * 32 + n % 32 ≡ n = omega arith in
      let near : ltb (col + j) k || ltb (row + i) k ≡ false = ground (arith, across, down) in
      rw (near, c, r) (ground (arith, edge, narrow, low, same, f))

  -- The ring and the place on its edge of a column and a row that are so far away.
  edge_place :
      (c r k : ℕ)
      → col ≤ c + k
      → c ≤ col + k
      → row ≤ r + k
      → r ≤ row + k
      → ((c ≡ col + k) ⊎ (col ≡ c + k)) ⊎ ((r ≡ row + k) ⊎ (row ≡ r + k))
      → ((r + k - row == 0 || r + k - row == 2 * k) || (c + k - col == 0 || c + k - col == 2 * k)
          ≡ true)
        × (col + (c + k - col) ≡ c + k)
        × (row + (r + k - row) ≡ r + k)
        × (c + k - col ≤ 2 * k)
        × (r + k - row ≤ 2 * k)
  edge_place c r k a b d e (inl (inl h)) =
      (ground (arith, h), omega (arith, a), omega (arith, d), omega (arith, b), omega (arith, e))
  edge_place c r k a b d e (inl (inr h)) =
      (ground (arith, h), omega (arith, a), omega (arith, d), omega (arith, b), omega (arith, e))
  edge_place c r k a b d e (inr (inl h)) =
      (ground (arith, h), omega (arith, a), omega (arith, d), omega (arith, b), omega (arith, e))
  edge_place c r k a b d e (inr (inr h)) =
      (ground (arith, h), omega (arith, a), omega (arith, d), omega (arith, b), omega (arith, e))

  abbrev IsRingOf : ℕ → ℕ → ℕ → Type 0
  IsRingOf c r k =
      (0 < k)
      × (k ≤ 4)
      × (col ≤ c + k)
      × (c ≤ col + k)
      × (row ≤ r + k)
      × (r ≤ row + k)
      × (((c ≡ col + k) ⊎ (col ≡ c + k)) ⊎ ((r ≡ row + k) ⊎ (row ≡ r + k)))

  find_ring :
      (c r : ℕ)
      → col ≤ c + 4
      → c ≤ col + 4
      → row ≤ r + 4
      → r ≤ row + 4
      → ((c ≡ col) × (r ≡ row)) ⊎ ((k : ℕ) × IsRingOf c r k)
  find_ring c r a b d e =
      let across = (c - col) + (col - c) in
      let down = (r - row) + (row - r) in
      elim (Bool-cases (across == 0 && down == 0)) [
        | inl here ↦ inl (ground (arith, here), ground (arith, here))
        | inr away ↦ elim (Bool-cases (ltb across down)) [
          | inl tall ↦ inr (
            down,
            (
              ground (arith, tall),
              omega (arith, d, e),
              ground (arith, tall),
              ground (arith, tall),
              omega arith,
              omega arith,
              inr (ground arith),
            ),
          )
          | inr wide ↦ inr (
            across,
            (
              ground (arith, wide, away),
              omega (arith, a, b),
              omega arith,
              omega arith,
              ground (arith, wide),
              ground (arith, wide),
              inl (ground arith),
            ),
          )
        ]
      ]

  -- A search that finds nothing within four leaves no free cell there.
  pub nav_start_cell-none :
      (n : ℕ)
      → nav_start_cell free col row ≡ none
      → n < nav_cells
      → IsWithin col row 4 n
      → free n ≡ false
  unfolding nav_start_cell nav_nearest_free
  nav_start_cell-none n e b (w, x, y, z) = elim (Bool-cases (free n)) [
    | inr shut ↦ shut
    | inl clear ↦ elim (find_ring (n % nav_cols) (n / nav_cols) w x y z) [
      | inl here ↦
          let same : row * nav_cols + col ≡ n = omega (arith, here.0, here.1) in
          let here_clear : free (row * nav_cols + col) ≡ true = rw same clear in
          absurd (ground (arith, e, here_clear))
      | inr (k, (pos_, low, a, c, d, f, g)) ↦
          let place = edge_place (n % nav_cols) (n / nav_cols) k a c d f g in
          let i = n / nav_cols + k - row in
          let j = n % nav_cols + k - col in
          let outer : rings free col row 1 4 ≡ none = ground (arith, e) in
          let missed : ring_cell free col row k i j ≡ none =
            ring_row-none k i 0 (2 * k + 1) j
              (ring-none k 0 (2 * k + 1) i
                (rings-none 1 4 k outer (omega (arith, pos_)) (omega (arith, low))) (omega arith)
                (omega (arith, place.4)))
              (omega arith) (omega (arith, place.3)) in
          absurd (ground (arith, missed, ring_cell-edge k i j n place.1 place.2 b clear place.0))
    ]
  ]
