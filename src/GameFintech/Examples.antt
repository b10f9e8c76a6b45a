-- ===== src/GameFintech/Examples.antt =====
-- The theorems of the floor at an empty office and in a corridor.
use psycho_space.Prelude.{refl, arith, ◌==◌, ◌||◌, ◌⊎◌, false, ℕ, ◌≡◌, ◌↔◌, Bool, true, some}
use psycho_space.GameFintech.Grid.{
  around, cell_at, ring, ring_row, ring_cell, rings, nav_nearest_free, nav_start_cell,
  floor_is_one_place,
}
use psycho_space.GameFintech.Navigate.{
  nav_aim_at, next_cell, search_from, search, spread_all, spread, best_of, better,
}
use psycho_space.GameFintech.Labels.{no_step}
use psycho_space.GameFintech.Chase.{Closer}
use psycho_space.GameFintech.Pursuit.{cell_of, toward-Closer, straight_when}
use psycho_space.GameFintech.OnePlace.{IsOnePlace, floor_is_one_place_iff}

abbrev empty_floor : ℕ → Bool
empty_floor n = true

floor_is_one_place_iff_example : (floor_is_one_place empty_floor ≡ true) ↔ IsOnePlace empty_floor
floor_is_one_place_iff_example = floor_is_one_place_iff empty_floor

-- A floor of three free cells in the top row, of which the last cannot be walked to.
abbrev corridor : ℕ → Bool
corridor n = n == 0 || n == 1 || n == 5

toward-Closer_example :
    (false ≡ false)
    × ((start : ℕ) × (nav_start_cell corridor 1 0 ≡ some start)
        × Closer corridor start (cell_of 0 0) 1)
unfolding nav_aim_at nav_start_cell next_cell search_from search spread_all spread around cell_at
    best_of better
toward-Closer_example = toward-Closer corridor false 0 0 1 0 1 (omega arith) refl

-- The target stands off the corridor, and the free cell nearest to it is the pursuer's own.
straight_when_example : (false ≡ true) ⊎ (cell_of 1 0 ≡ 1)
unfolding nav_aim_at nav_start_cell nav_nearest_free rings ring ring_row ring_cell next_cell
    search_from search spread_all spread around cell_at best_of better
straight_when_example = straight_when corridor false 1 0 2 0 1 0 (omega arith) refl refl no_step
