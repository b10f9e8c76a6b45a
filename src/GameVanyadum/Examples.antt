-- ===== src/GameVanyadum/Examples.antt =====
-- The ring after four frames, with one creature gone.
use psycho_space.Prelude.{pos, ◌≤◌, ℕ, ◌-◌, ◌≡◌, List, [], ◌∷◌, true}
use psycho_space.GameVanyadum.History.{
  Spot, Frame, new_history, past_at, rewind_to, rewind_of, history_capacity, nth,
}
use psycho_space.GameVanyadum.Past.{Use, recorded, forgotten, run, log_of, still, rewind_to_lem}

abbrev spot : ℕ → Spot ℕ
spot n = record { x = n; y = 0; sector = 1; alive = true }

abbrev frame : ℕ → Frame ℕ
frame n = record { tick = n; at = n; spots = (7, spot n) ∷ (9, spot n) ∷ [] }

abbrev uses : List (Use ℕ)
uses =
    recorded (frame 50)
    ∷ recorded (frame 100)
    ∷ recorded (frame 150)
    ∷ forgotten 9
    ∷ recorded (frame 200000000)
    ∷ []

abbrev halfway : ℕ → ℕ → ℕ → ℕ → ℕ
halfway a b t span = b

-- A round trip of 60 milliseconds.
rewind_to_lem_example :
    (rewind_to ℕ halfway 300000000 (pos 60000000) (run ℕ uses (new_history ℕ history_capacity))
      ≡ past_at ℕ halfway
          (300000000 - rewind_of (pos 60000000))
          (λ j. nth ℕ (still ℕ halfway 12 (log_of ℕ uses []) - 1 - j) (log_of ℕ uses []))
          (still ℕ halfway 12 (log_of ℕ uses [])))
    × (120000000 ≤ rewind_of (pos 60000000))
    × (rewind_of (pos 60000000) ≤ 500000000)
rewind_to_lem_example = rewind_to_lem ℕ halfway 300000000 (pos 60000000) uses
