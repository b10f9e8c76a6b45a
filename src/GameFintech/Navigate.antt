-- ===== src/GameFintech/Navigate.antt =====
-- internal/gamefintech/navigate.go: where a pursuer heads. `clear` is the test of the straight line, on
-- floating-point rectangles; the cells of both points are handed in. A label is the code's `dist` plus
-- one, so that 0 stands for its -1.
use psycho_space.Prelude.{
  ℕ, zero, suc, ◌+◌, ◌*◌, Bool, true, false, ◌&&◌, ◌||◌, not, List, [], ◌∷◌, ◌++◌, Option, none,
  some, if◌then◌else◌, ◌==◌, ltb,
}
use psycho_space.GameFintech.Grid.{nav_cols, nav_cells, around, nav_start_cell}

pub record Search : Type 0 where
  pub label : ℕ → ℕ
  pub waiting : List ℕ
  pub got_there : Bool

abbrev pub set_label : ℕ → ℕ → (ℕ → ℕ) → ℕ → ℕ
set_label n v label k = if k == n then v else label k

-- Where to head: at the point itself, or at the centre of a cell.
pub data Aim : Type 0 where
  straight : Aim
  toward : ℕ → Aim

module _ (free : ℕ → Bool) where
  unfoldable pub spread : ℕ → Option ℕ → Search → Search
  spread cur none s = s
  spread cur (some n) s =
      if not (s.label n == 0) || not (free n)
      then s
      else record s { label = set_label n (s.label cur + 1) s.label; waiting = s.waiting ++ n ∷ [] }

  unfoldable pub spread_all : ℕ → List (Option ℕ) → Search → Search
  spread_all cur [] s = s
  spread_all cur (o ∷ os) s = spread_all cur os (spread cur o s)

  -- The search from the target, which stops when it takes the goal from the queue.
  unfoldable pub search : ℕ → ℕ → Search → Search
  search goal zero s = s
  search goal (suc fuel) s = elim s.waiting [
    | [] ↦ s
    | cur ∷ rest ↦
        let on = search goal fuel (spread_all cur (around cur) (record s { waiting = rest })) in
        if cur == goal then record s { waiting = rest; got_there = true } else on
  ]

  unfoldable pub better : (ℕ → ℕ) → Option ℕ → Option ℕ × ℕ → Option ℕ × ℕ
  better label none best = best
  better label (some n) best =
      if not (free n) || label n == 0
      then best
      else if ltb (label n) best.1
      then (some n, label n)
      else best

  unfoldable pub best_of : (ℕ → ℕ) → List (Option ℕ) → Option ℕ × ℕ → Option ℕ × ℕ
  best_of label [] best = best
  best_of label (o ∷ os) best = best_of label os (better label o best)

  unfoldable pub search_from : ℕ → ℕ → Search
  search_from start goal =
      search goal (nav_cells + 1)
        (record { label = set_label start 1 (λ n. 0); waiting = start ∷ []; got_there = false })

  abbrev pub downhill : ℕ → Search → Option ℕ
  downhill goal s =
      if s.got_there then (best_of s.label (around goal) (none, s.label goal)).0 else none

  unfoldable pub next_cell : ℕ → ℕ → Option ℕ
  next_cell start goal = downhill goal (search_from start goal)

  abbrev pub aim_from : Option ℕ → ℕ → Aim
  aim_from none goal = straight
  aim_from (some start) goal = elim (next_cell start goal) [ none ↦ straight | some n ↦ toward n ]

  -- `navAimAt`
  unfoldable pub nav_aim_at : Bool → ℕ → ℕ → ℕ → ℕ → Aim
  nav_aim_at clear from_col from_row to_col to_row =
      if clear
      then straight
      else if from_col == to_col && from_row == to_row
      then straight
      else aim_from (nav_start_cell free to_col to_row) (from_row * nav_cols + from_col)
