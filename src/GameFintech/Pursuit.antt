-- ===== src/GameFintech/Pursuit.antt =====
-- Where a pursuer heads, from its cell and the target's.
use psycho_space.Prelude.{
  ℕ, ◌+◌, ◌*◌, ◌<◌, ◌≡◌, subst, ◌∙◌, ◌⊎◌, Bool, true, false, ◌&&◌, some, ◌==◌, arith, inl, inr,
  Bool-cases, Option-cases,
}
use psycho_space.GameFintech.Grid.{nav_cells, nav_cols, nav_start_cell}
use psycho_space.GameFintech.Navigate.{straight, toward, next_cell, nav_aim_at}
use psycho_space.GameFintech.Labels.{Walk}
use psycho_space.GameFintech.OnePlace.{nav_start_cell-Stands}
use psycho_space.GameFintech.Chase.{
  Closer, next_cell-Closer, next_cell-none, stays, Walk-free, Nat-cases,
}

-- The cell of a place.
abbrev pub cell_of : ℕ → ℕ → ℕ
cell_of col row = row * nav_cols + col

nav_start_cell_self :
    (free : ℕ → Bool) (col row start : ℕ)
    → free (cell_of col row) ≡ true
    → nav_start_cell free col row ≡ some start
    → cell_of col row ≡ start
unfolding nav_start_cell
nav_start_cell_self free col row start f e = ground (arith, f, e)

-- In the target's own cell the start of the search is that cell, if a walk leads to it at all.
same_cell :
    (free : ℕ → Bool) (cell col row start d : ℕ)
    → cell ≡ cell_of col row
    → nav_start_cell free col row ≡ some start
    → Walk free start d cell
    → cell ≡ start
same_cell free cell col row start d there at w = elim (Nat-cases d) [
  | inl z ↦ stays free start cell (subst (λ x. Walk free start x cell) z w)
  | inr (m, z) ↦
      let clear = Walk-free free start m cell (subst (λ x. Walk free start x cell) z w) in
      there ∙ nav_start_cell_self free col row start (subst (λ x. free x ≡ true) there clear) at
]

module _ (free : ℕ → Bool) (clear : Bool) (from_col from_row to_col to_row : ℕ) where
  -- A pursuer is sent to a cell only if the straight line is blocked, and then to a free neighbour
  -- of its own cell that has a walk over free neighbours to the start of the search, the target's
  -- cell or a free one near it, shorter than any walk there from its own cell. The target's cell
  -- is on the grid.
  pub toward-Closer :
      (n : ℕ)
      → cell_of to_col to_row < nav_cells
      → nav_aim_at free clear from_col from_row to_col to_row ≡ toward n
      → (clear ≡ false)
        × ((start : ℕ) × (nav_start_cell free to_col to_row ≡ some start)
            × Closer free start (cell_of from_col from_row) n)
  unfolding nav_aim_at
  toward-Closer n b e = elim (Option-cases (nav_start_cell free to_col to_row)) [
    | inl gone ↦ absurd (ground (arith, e, gone))
    | inr (start, at) ↦ elim (Option-cases (next_cell free start (cell_of from_col from_row))) [
      | inl stuck ↦ absurd (ground (arith, e, at, stuck))
      | inr (k, next) ↦
          let stands = nav_start_cell-Stands free to_col to_row b start at in
          let same : k ≡ n = ground (arith, e, at, next) in
          (
            ground (arith, e),
            (
              start,
              at,
              subst (λ x. Closer free start (cell_of from_col from_row) x) same
                  (next_cell-Closer free start (cell_of from_col from_row) k stands.0 stands.1
                    next),
            ),
          )
    ]
  ]

  -- A pursuer to whose cell a walk over free neighbours leads from the start of the search is sent
  -- straight only if the line is clear or its cell is that start. The target's cell is on the
  -- grid.
  pub straight_when :
      (start d : ℕ)
      → cell_of to_col to_row < nav_cells
      → nav_aim_at free clear from_col from_row to_col to_row ≡ straight
      → nav_start_cell free to_col to_row ≡ some start
      → Walk free start d (cell_of from_col from_row)
      → (clear ≡ true) ⊎ (cell_of from_col from_row ≡ start)
  unfolding nav_aim_at
  straight_when start d b e at w = elim (Bool-cases clear) [
    | inl open_ ↦ inl open_
    | inr blocked ↦ elim (Bool-cases (cell_of from_col from_row == start)) [
      | inl here ↦ inr (ground (arith, here))
      | inr apart ↦
          let stands = nav_start_cell-Stands free to_col to_row b start at in
          elim (Bool-cases (from_col == to_col && from_row == to_row)) [
            | inl same ↦ inr (
                same_cell free (cell_of from_col from_row) to_col to_row start d
                  (ground (arith, same)) at w)
            | inr other ↦ elim (Option-cases (next_cell free start (cell_of from_col from_row))) [
              | inl stuck ↦ absurd (
                  next_cell-none free start (cell_of from_col from_row) d stands.0 stands.1
                    (ground (arith, apart)) stuck w)
              | inr (k, next) ↦ absurd (ground (arith, e, blocked, other, at, next))
            ]
          ]
    ]
  ]
