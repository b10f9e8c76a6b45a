-- ===== src/GameKhimki/Records/Submission.antt =====
-- internal/gamekhimki/service.go: SubmitRun, and what the boards make of a run that it records.
use psycho_space.Prelude.{
  ℕ, ◌≡◌, refl, ap, sym, subst, ℤ, pos, negsuc, ◌⊎◌, inl, inr, Text, eq_text, eq_text_refl, Bool,
  true, false, ◌&&◌, List, [], ◌∷◌, ◌++◌, Option, none, some, leb, ltb, arith, Every, Bool-cases,
  Option-cases,
}
use psycho_space.GameKhimki.Defs.{Character, find_character, max_steps}
use psycho_space.GameKhimki.Records.{
  Run, RecordEntry, RecordBoard, GameError, known_game, submit_run, leaderboard,
}
use psycho_space.GameKhimki.Records.Best.{is_win, beats, ranks}
use psycho_space.GameKhimki.Records.Boards.{IsTop}
use psycho_space.GameKhimki.Records.Ranking.{IsBoard, leaderboard_lem}

abbrev pub is_served : Option Character → Bool
is_served none = false
is_served (some c) = true

abbrev pub in_range : ℤ → Bool
in_range (pos n) = leb n max_steps
in_range (negsuc n) = false

abbrev pub StepsIn : ℤ → ℕ → Type 0
StepsIn (pos n) k = k ≡ n
StepsIn (negsuc n) k = ⊥

module _ (characters : List Character) (account : ℕ) (game character : Text) (success : Bool)
    (steps : ℤ) (id : ℕ) (rows : List Run) where
  abbrev pub is_accepted : Bool
  is_accepted = known_game game && is_served (find_character character characters) && in_range steps

  abbrev pub IsSubmitted : (GameError ⊎ Run) × List Run → Type 0
  IsSubmitted (inl err, rows') = (is_accepted ≡ false) × (rows' ≡ rows)
  IsSubmitted (inr run, rows') =
      (is_accepted ≡ true)
      × (rows' ≡ rows ++ run ∷ [])
      × (run.account_id ≡ account)
      × (run.game_key ≡ game)
      × (run.success ≡ success)
      × (run.deleted_at ≡ none)
      × StepsIn steps run.steps

-- A run is recorded exactly if the game is served, the character is one of its own and the steps are
-- between 0 and 1000; then one row is added, for that account, game, outcome and number of steps, and
-- otherwise the table is left as it is.
pub submit_run_lem :
    (characters : List Character) (account : ℕ) (game character : Text) (success : Bool) (steps : ℤ)
    (id : ℕ) (rows : List Run)
    → IsSubmitted characters account game character success steps id rows
        (submit_run characters account game character success steps id rows)
unfolding submit_run
submit_run_lem characters account game character success (negsuc n) id rows =
    elim (Bool-cases (known_game game)) [
      | inr e ↦ rw (e, submit_run) (ground (arith, e), refl)
      | inl e ↦ elim (Option-cases (find_character character characters)) [
        | inl f ↦ rw (e, f, submit_run) (ground (arith, f), refl)
        | inr (c, f) ↦ rw (e, f, submit_run) (ground arith, refl)
      ]
    ]
submit_run_lem characters account game character success (pos n) id rows =
    elim (Bool-cases (known_game game)) [
      | inr e ↦ rw (e, submit_run) (ground (arith, e), refl)
      | inl e ↦ elim (Option-cases (find_character character characters)) [
        | inl f ↦ rw (e, f, submit_run) (ground (arith, f), refl)
        | inr (c, f) ↦ elim (Bool-cases (ltb max_steps n)) [
          | inl far ↦ rw (e, f, far, submit_run) (ground (arith, far), refl)
          | inr near ↦
              rw (e, f, near, submit_run)
                (ground (arith, e, near, ap is_served f), refl, refl, refl, refl, refl, refl)
        ]
      ]
    ]

Every-last : (P : Run → Type 0) (rows : List Run) (r : Run) → Every P (rows ++ r ∷ []) → P r
Every-last P [] r h = h.0
Every-last P (x ∷ rows) r h = Every-last P rows r h.1

-- No entry first of a board that a number of steps beats.
abbrev pub HasFirst : RecordBoard → ℕ → List RecordEntry → Type 0
HasFirst board n [] = ⊥
HasFirst board n (e ∷ es) = beats board n e.steps ≡ false

abbrev pub Shows : RecordBoard → ℕ → GameError ⊎ (RecordBoard → List RecordEntry) → Type 0
Shows board n (inl err) = ⊥
Shows board n (inr boards) = HasFirst board n (boards board)

IsTop-HasFirst :
    (board : RecordBoard) (game : Text) (rows : List Run) (r : Run) (es : List RecordEntry)
    → ranks board game r ≡ true
    → IsTop board game (rows ++ r ∷ []) es
    → HasFirst board r.steps es
IsTop-HasFirst board game rows r [] on h =
    ground (arith, on, Every-last (λ x. ranks board game x ≡ false) rows r h)
IsTop-HasFirst board game rows r (e ∷ es) on h = ground (
  arith,
  on,
  Every-last (λ x. ranks board game x && beats board x.steps e.steps ≡ false) rows r h.1,
)

IsBoard-Shows :
    (board : RecordBoard) (game : Text) (limit : ℤ) (rows : List Run) (r : Run)
    (res : GameError ⊎ (RecordBoard → List RecordEntry))
    → known_game game ≡ true
    → ranks board game r ≡ true
    → IsBoard board game limit (rows ++ r ∷ []) res
    → Shows board r.steps res
IsBoard-Shows board game limit rows r (inl err) known on h = ground (arith, known, h)
IsBoard-Shows board game limit rows r (inr boards) known on h =
    IsTop-HasFirst board game rows r (boards board) on h.3

module _ (board : RecordBoard) (limit : ℤ) (characters : List Character) (account : ℕ)
    (game character : Text) (n id : ℕ) (rows : List Run) where
  shows :
      (res : (GameError ⊎ Run) × List Run)
      → IsSubmitted characters account game character (is_win board) (pos n) id rows res
      → is_accepted characters account game character (is_win board) (pos n) id rows ≡ true
      → Shows board n (leaderboard game limit res.1)
  shows (inl err, rows') h on = ground (arith, h.0, on)
  shows (inr run, rows') (yes_, rows_, who, which, won, live, much) on =
      let same : eq_text run.game_key game ≡ true =
        subst (λ k. eq_text k game ≡ true) (sym which) (eq_text_refl game) in
      let ranked : ranks board game run ≡ true = ground (arith, same, won, live) in
      subst (λ k. Shows board k (leaderboard game limit rows')) much
        (IsBoard-Shows board game limit rows run (leaderboard game limit rows') (ground (arith, on))
          ranked
          (subst (λ t. IsBoard board game limit t (leaderboard game limit rows')) rows_
            (leaderboard_lem board game limit rows')))

  -- Right after a run is accepted the board that ranks its outcome has a first entry, and the run
  -- does not beat it.
  pub submit_run-leaderboard :
      is_accepted characters account game character (is_win board) (pos n) id rows ≡ true
      → Shows board n (
          leaderboard game limit
            (submit_run characters account game character (is_win board) (pos n) id rows).1)
  submit_run-leaderboard on =
      shows (submit_run characters account game character (is_win board) (pos n) id rows)
        (submit_run_lem characters account game character (is_win board) (pos n) id rows) on
