-- ===== src/GameKhimki/Records/Best.antt =====
-- internal/gamekhimki/postgres_repository.go: max and min of the runs of one kind.
use psycho_space.Prelude.{
  ℕ, ◌≡◌, sym, subst, ◌⊎◌, inl, inr, Text, Bool, true, false, ◌&&◌, ◌||◌, List, [], ◌∷◌, Option,
  none, some, ltb, ◌==◌, if◌then◌else◌, arith, Every, Every-imp,
}
use psycho_space.GameKhimki.Records.{
  Run, RecordBoard, board_longest_win, board_shortest_win, board_longest_loss, board_shortest_loss,
  is_of_game, ended, best, more, fewer, steps_of, desc,
}

-- Which runs a board ranks, and when one number of steps beats another there.
abbrev pub is_win : RecordBoard → Bool
is_win board_longest_win = true
is_win board_shortest_win = true
is_win board_longest_loss = false
is_win board_shortest_loss = false

abbrev pub beats : RecordBoard → ℕ → ℕ → Bool
beats board a b = if desc board then ltb b a else ltb a b

abbrev pub ranks : RecordBoard → Text → Run → Bool
ranks board game r = is_of_game game r && ended (is_win board) r

unfoldable pub any_run : (Run → Bool) → List Run → Bool
any_run test [] = false
any_run test (r ∷ rows) = test r || any_run test rows

module _ (board : RecordBoard) where
  abbrev pub IsBest : (Run → Bool) → List Run → Option ℕ → Type 0
  IsBest test rows none = Every (λ r. test r ≡ false) rows
  IsBest test rows (some k) =
      (any_run (λ r. test r && r.steps == k) rows ≡ true)
      × Every (λ r. test r && beats board r.steps k ≡ false) rows

  abbrev pub best_at : List ℕ → Option ℕ
  best_at ns = if desc board then best more ns else best fewer ns

  best_at-how :
      (n : ℕ) (ns : List ℕ)
      → ((best_at ns ≡ none) × (best_at (n ∷ ns) ≡ some n))
        ⊎ ((k : ℕ) × (best_at ns ≡ some k)
            × ((beats board k n ≡ true) × (best_at (n ∷ ns) ≡ some k)
                ⊎ (beats board k n ≡ false) × (best_at (n ∷ ns) ≡ some n)))
  unfolding best
  best_at-how n ns = ground arith

  steps_of-how :
      (test : Run → Bool) (r : Run) (rows : List Run)
      → ((test r ≡ true) × (steps_of test (r ∷ rows) ≡ r.steps ∷ steps_of test rows))
        ⊎ ((test r ≡ false) × (steps_of test (r ∷ rows) ≡ steps_of test rows))
  unfolding steps_of
  steps_of-how test r rows = ground arith

  IsBest-skip :
      (test : Run → Bool) (r : Run) (rows : List Run) (o : Option ℕ)
      → test r ≡ false
      → IsBest test rows o
      → IsBest test (r ∷ rows) o
  unfolding any_run
  IsBest-skip test r rows none e h = (e, h)
  IsBest-skip test r rows (some k) e h = (ground (arith, h.0), (ground (arith, e), h.1))

  IsBest-add :
      (test : Run → Bool) (r : Run) (rows : List Run)
      → test r ≡ true
      → IsBest test rows (best_at (steps_of test rows))
      → IsBest test (r ∷ rows) (best_at (r.steps ∷ steps_of test rows))
  unfolding any_run
  IsBest-add test r rows e h = elim (best_at-how r.steps (steps_of test rows)) [
    | inl (no_one, now) ↦
        let all : Every (λ x. test x ≡ false) rows = subst (IsBest test rows) no_one h in
        subst (IsBest test (r ∷ rows)) (sym now) (
          ground (arith, e),
          (
            ground arith,
            Every-imp (λ x. test x ≡ false) (λ x. test x && beats board x.steps r.steps ≡ false)
                rows (λ x b. ground (arith, b)) all,
          ),
        )
    | inr (k, was, inl (loses, now)) ↦
        let all : IsBest test rows (some k) = subst (IsBest test rows) was h in
        subst (IsBest test (r ∷ rows)) (sym now)
          (ground (arith, all.0), (ground (arith, loses), all.1))
    | inr (k, was, inr (wins, now)) ↦
        let all : IsBest test rows (some k) = subst (IsBest test rows) was h in
        subst (IsBest test (r ∷ rows)) (sym now) (
          ground (arith, e),
          (
            ground arith,
            Every-imp (λ x. test x && beats board x.steps k ≡ false)
                (λ x. test x && beats board x.steps r.steps ≡ false) rows
                (λ x b. ground (arith, b, wins)) all.1,
          ),
        )
  ]

  pub steps_of-IsBest :
      (test : Run → Bool) (rows : List Run) → IsBest test rows (best_at (steps_of test rows))
  unfolding steps_of best
  steps_of-IsBest test [] =
      let empty : none ≡ best_at [] = ground arith in subst (IsBest test []) empty tt
  steps_of-IsBest test (r ∷ rows) = elim (steps_of-how test r rows) [
    | inl (e, now) ↦
        subst (λ ns. IsBest test (r ∷ rows) (best_at ns)) (sym now)
          (IsBest-add test r rows e (steps_of-IsBest test rows))
    | inr (e, now) ↦
        subst (λ ns. IsBest test (r ∷ rows) (best_at ns)) (sym now)
          (IsBest-skip test r rows (best_at (steps_of test rows)) e (steps_of-IsBest test rows))
  ]
