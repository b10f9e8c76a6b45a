-- ===== src/GameFintech/Grid.antt =====
-- internal/gamefintech/navigate.go, validate.go: the grid over the floor and the flood fill on it. The
-- grid itself, which cell is free of furniture, is made from floating-point rectangles and is the
-- parameter `free`. Of the queue the model keeps what the loop has still to read.
use psycho_space.Prelude.{
  ℕ, zero, suc, ◌+◌, ◌-◌, ◌*◌, ◌/◌, ◌%◌, Bool, false, ◌&&◌, ◌||◌, not, List, [], ◌∷◌, ◌++◌, Option,
  none, some, if◌then◌else◌, ◌==◌, ltb,
}

-- 16 m by 22 m in cells of half a metre.
abbrev pub nav_cols : ℕ
nav_cols = 32

abbrev pub nav_rows : ℕ
nav_rows = 44

abbrev pub nav_cells : ℕ
nav_cells = 1408

-- The cell that the boss's spawn, (8.0, 20.5), falls in.
abbrev pub boss_col : ℕ
boss_col = 16

abbrev pub boss_row : ℕ
boss_row = 41

unfoldable pub cell_at : ℕ → ℕ → Option ℕ
cell_at c r = if ltb c nav_cols && ltb r nav_rows then some (r * nav_cols + c) else none

-- The four neighbours, in the order of the loop; `none` is off the grid.
unfoldable pub around : ℕ → List (Option ℕ)
around cell =
    let c = cell % nav_cols in
    let r = cell / nav_cols in
    cell_at (c + 1) r
    ∷ (if c == 0 then none else cell_at (c - 1) r)
    ∷ cell_at c (r + 1)
    ∷ (if r == 0 then none else cell_at c (r - 1))
    ∷ []

pub record Fill : Type 0 where
  pub seen : ℕ → Bool
  pub queue : List ℕ
  pub reached : ℕ

abbrev pub mark : ℕ → (ℕ → Bool) → ℕ → Bool
mark n seen k = k == n || seen k

-- `for _, f := range free { if f { total++ } }`, of the first cells.
unfoldable pub count_to : (ℕ → Bool) → ℕ → ℕ
count_to p zero = 0
count_to p (suc k) = (if p k then 1 else 0) + count_to p k

module _ (free : ℕ → Bool) where
  unfoldable pub look : Option ℕ → Fill → Fill
  look none s = s
  look (some n) s =
      if s.seen n || not (free n)
      then s
      else record { seen = mark n s.seen; queue = s.queue ++ n ∷ []; reached = s.reached + 1 }

  unfoldable pub look_all : List (Option ℕ) → Fill → Fill
  look_all [] s = s
  look_all (o ∷ os) s = look_all os (look o s)

  unfoldable pub fill : ℕ → Fill → Fill
  fill zero s = s
  fill (suc fuel) s = elim s.queue [
    | [] ↦ s
    | cur ∷ rest ↦ fill fuel (look_all (around cur) (record s { queue = rest }))
  ]

  unfoldable pub fill_from : ℕ → Fill
  fill_from start =
      fill (nav_cells + 1) (record { seen = λ n. n == start; queue = start ∷ []; reached = 1 })

  -- The ring search for a free cell. `i` and `j` count from 0 to `2k` for the offsets `-k` to `k`; the
  -- cell is passed over if it is inside the ring, off the grid or not free.
  unfoldable pub ring_cell : ℕ → ℕ → ℕ → ℕ → ℕ → Option ℕ
  ring_cell col row k i j =
      if not (i == 0 || i == 2 * k) && not (j == 0 || j == 2 * k)
      then none
      else if ltb (col + j) k || ltb (row + i) k
      then none
      else elim (cell_at (col + j - k) (row + i - k)) [
        | none ↦ none
        | some n ↦ if free n then some n else none
      ]

  unfoldable pub ring_row : ℕ → ℕ → ℕ → ℕ → ℕ → ℕ → Option ℕ
  ring_row col row k i j zero = none
  ring_row col row k i j (suc left) =
      let rest = ring_row col row k i (j + 1) left in
      elim (ring_cell col row k i j) [ none ↦ rest | some n ↦ some n ]

  unfoldable pub ring : ℕ → ℕ → ℕ → ℕ → ℕ → Option ℕ
  ring col row k i zero = none
  ring col row k i (suc left) =
      let rest = ring col row k (i + 1) left in
      elim (ring_row col row k i 0 (2 * k + 1)) [ none ↦ rest | some n ↦ some n ]

  unfoldable pub rings : ℕ → ℕ → ℕ → ℕ → Option ℕ
  rings col row k zero = none
  rings col row k (suc left) =
      let rest = rings col row (k + 1) left in
      elim (ring col row k 0 (2 * k + 1)) [ none ↦ rest | some n ↦ some n ]

  -- `navNearestFree`: four rings.
  unfoldable pub nav_nearest_free : ℕ → ℕ → Option ℕ
  nav_nearest_free col row = rings col row 1 4

  -- `navStartCell`, at a point that falls in a cell of the grid.
  unfoldable pub nav_start_cell : ℕ → ℕ → Option ℕ
  nav_start_cell col row =
      if free (row * nav_cols + col) then some (row * nav_cols + col) else nav_nearest_free col row

  abbrev pub covers : Option ℕ → Bool
  covers none = false
  covers (some start) = (fill_from start).reached == count_to free nav_cells

  -- `floorIsOnePlace`
  unfoldable pub floor_is_one_place : Bool
  floor_is_one_place = covers (nav_start_cell boss_col boss_row)
