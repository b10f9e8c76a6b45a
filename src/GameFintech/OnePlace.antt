-- ===== src/GameFintech/OnePlace.antt =====
-- The ring search, and the verdict that a floor is one place.
use psycho_space.Prelude.{
  ℕ, zero, suc, ◌+◌, ◌<◌, ◌≡◌, ◌↔◌, Bool, true, Option, some, arith, inl, inr, Option-cases, ◌*◌,
  ◌-◌,
}
use psycho_space.GameFintech.Grid.{
  nav_cols, nav_cells, boss_col, boss_row, cell_at, ring_cell, ring_row, ring, rings,
  nav_nearest_free, nav_start_cell, floor_is_one_place,
}
use psycho_space.GameFintech.Flood.{Reach, at_start, onward, around_bound}
use psycho_space.GameFintech.Beside.{around_sym}
use psycho_space.GameFintech.Rings.{IsWithin, nav_start_cell-IsWithin}
use psycho_space.GameFintech.Searched.{nav_start_cell-none}
use psycho_space.GameFintech.Spread.{covers_iff}

cell_at_bound : (c r n : ℕ) → cell_at c r ≡ some n → n < nav_cells
unfolding cell_at
cell_at_bound c r n e = ground (arith, e)

module _ (free : ℕ → Bool) (col row : ℕ) where
  -- A cell that stands for a place to start from.
  abbrev pub Stands : Option ℕ → Type 0
  Stands o = (n : ℕ) → o ≡ some n → (n < nav_cells) × (free n ≡ true)

  ring_cell-Stands : (k i j : ℕ) → Stands (ring_cell free col row k i j)
  unfolding ring_cell
  ring_cell-Stands k i j n e = elim (Option-cases (cell_at (col + j - k) (row + i - k))) [
    | inl off ↦ ground (arith, e, off)
    | inr (m, on_grid) ↦
        ground (arith, e, on_grid, cell_at_bound (col + j - k) (row + i - k) m on_grid)
  ]

  ring_row-Stands : (k i j left : ℕ) → Stands (ring_row free col row k i j left)
  unfolding ring_row
  ring_row-Stands k i j zero n e = ground (arith, e)
  ring_row-Stands k i j (suc left) n e =
      ground (arith, e, ring_cell-Stands k i j n, ring_row-Stands k i (j + 1) left n)

  ring-Stands : (k i left : ℕ) → Stands (ring free col row k i left)
  unfolding ring
  ring-Stands k i zero n e = ground (arith, e)
  ring-Stands k i (suc left) n e =
      ground (arith, e, ring_row-Stands k i 0 (2 * k + 1) n, ring-Stands k (i + 1) left n)

  rings-Stands : (k left : ℕ) → Stands (rings free col row k left)
  unfolding rings
  rings-Stands k zero n e = ground (arith, e)
  rings-Stands k (suc left) n e =
      ground (arith, e, ring-Stands k 0 (2 * k + 1) n, rings-Stands (k + 1) left n)

  pub nav_start_cell-Stands :
      row * nav_cols + col < nav_cells → Stands (nav_start_cell free col row)
  unfolding nav_start_cell nav_nearest_free
  nav_start_cell-Stands b n e = ground (arith, b, e, rings-Stands 1 4 n)

module _ (free : ℕ → Bool) where
  Reach-trans : (a b c : ℕ) → Reach free a b → Reach free b c → Reach free a c
  Reach-trans a b c h at_start = h
  Reach-trans a b c h (onward m n g beside clear) = onward m n (Reach-trans a b m h g) beside clear

  Reach-ok :
      (a n : ℕ) → a < nav_cells → free a ≡ true → Reach free a n → (n < nav_cells) × (free n ≡ true)
  Reach-ok a n b f at_start = (b, f)
  Reach-ok a n b f (onward m k g beside clear) = (around_bound m k beside, clear)

  Reach-sym : (a n : ℕ) → a < nav_cells → free a ≡ true → Reach free a n → Reach free n a
  Reach-sym a n b f at_start = at_start
  Reach-sym a n b f (onward m k g beside clear) =
      let there = Reach-ok a m b f g in
      let back : Reach free k m = onward k m at_start (around_sym m k there.0 beside) there.1 in
      Reach-trans k m a back (Reach-sym a m b f g)

  -- All free cells can be walked to from one near the boss's spawn.
  abbrev pub IsOnePlace : Type 0
  IsOnePlace =
      (start : ℕ) × (start < nav_cells)
      × (free start ≡ true)
      × IsWithin boss_col boss_row 4 start
      × ((n : ℕ) → n < nav_cells → free n ≡ true → Reach free start n)

  -- A floor passes exactly if there is a free cell of the grid at most four columns and four rows from
  -- the boss's spawn from which every free cell of the grid can be walked to over free neighbours.
  pub floor_is_one_place_iff : (floor_is_one_place free ≡ true) ↔ IsOnePlace
  unfolding floor_is_one_place
  floor_is_one_place_iff = elim (Option-cases (nav_start_cell free boss_col boss_row)) [
    | inl e ↦ (
      (λ h. absurd (ground (arith, h, e))),
      (λ (start, b, clear, near, all).
          absurd
            (ground (arith, clear, nav_start_cell-none free boss_col boss_row start e b near))),
    )
    | inr (s, e) ↦
        let stands = nav_start_cell-Stands free boss_col boss_row (omega arith) s e in
        let iff = covers_iff free s stands.0 stands.1 in
        (
          (λ h. (
            s,
            stands.0,
            stands.1,
            nav_start_cell-IsWithin free boss_col boss_row (omega arith) s e,
            iff.0 (ground (arith, h, e)),
          )),
          (λ (start, b, clear, near, all).
              let back = Reach-sym start s b clear (all s stands.0 stands.1) in
              ground (
                arith,
                e,
                iff.1 (λ n below open_. Reach-trans s start n back (all n below open_)),
              )),
        )
  ]
