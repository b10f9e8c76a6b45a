-- ===== src/GameKhimki/Records/Boards.antt =====
-- internal/gamekhimki/service.go: the boards against the table of runs.
use psycho_space.Prelude.{
  ℕ, ◌≡◌, refl, sym, subst, ap, ◌⊎◌, inl, inr, Text, Bool, true, false, ◌&&◌, ◌||◌, not, List, [],
  ◌∷◌, Option, none, some, ◌==◌, contains, map, arith, Every, Every-diag, Every-imp, Bool-cases,
  Option-cases,
}
use psycho_space.GameKhimki.Records.{
  Run, PlayerRecords, RecordEntry, RecordBoard, board_longest_win, board_shortest_win,
  board_longest_loss, board_shortest_loss, is_of_game, steps_of, ended_of, accounts_of, record_of,
  picked, entries,
}
use psycho_space.GameKhimki.Records.Best.{
  is_win, beats, ranks, any_run, IsBest, best_at, steps_of-IsBest,
}

abbrev pub is_run_of : RecordBoard → Text → RecordEntry → Run → Bool
is_run_of board game e r = ranks board game r && r.account_id == e.account_id && r.steps == e.steps

-- The first entry of a board is a run that the board ranks, and no run that it ranks beats it. A board
-- is empty only if there is none.
abbrev pub IsTop : RecordBoard → Text → List Run → List RecordEntry → Type 0
IsTop board game rows [] = Every (λ r. ranks board game r ≡ false) rows
IsTop board game rows (e ∷ es) =
    (any_run (is_run_of board game e) rows ≡ true)
    × Every (λ r. ranks board game r && beats board r.steps e.steps ≡ false) rows

module _ (board : RecordBoard) (game : Text) (rows : List Run) where
  abbrev pub row_of : ℕ → PlayerRecords
  row_of a = record_of game rows a

  abbrev pub ranks_of : ℕ → Run → Bool
  ranks_of a r = ended_of game (is_win board) a r

  picked-best :
      (b : RecordBoard) (a : ℕ)
      → picked b (row_of a) ≡ best_at b (steps_of (ended_of game (is_win b) a) rows)
  unfolding record_of
  picked-best board_longest_win a = refl
  picked-best board_shortest_win a = refl
  picked-best board_longest_loss a = refl
  picked-best board_shortest_loss a = refl

  abbrev pub entry : ℕ → ℕ → RecordEntry
  entry a k =
      let p = row_of a in
      record { account_id = a; steps = k; plays = p.plays; wins = p.wins; losses = p.losses }

  entries-how :
      (a : ℕ) (as_ : List ℕ)
      → ((picked board (row_of a) ≡ none)
          × (entries board (map row_of (a ∷ as_)) ≡ entries board (map row_of as_)))
        ⊎ ((k : ℕ) × (picked board (row_of a) ≡ some k)
            × (entries board (map row_of (a ∷ as_)) ≡ entry a k ∷ entries board (map row_of as_)))
  unfolding entries record_of
  entries-how a as_ = elim (Option-cases (picked board (row_of a))) [
    | inl e ↦ inl (e, rw (e, entries) refl)
    | inr (k, e) ↦ inr (k, e, rw (e, entries) refl)
  ]

  -- What holds of every entry holds of that of an account that is listed and has a record.
  pub entries-Every :
      (P : RecordEntry → Type 0) (as_ : List ℕ)
      → Every P (entries board (map row_of as_))
      → (a k : ℕ) → contains a as_ ≡ true
      → picked board (row_of a) ≡ some k
      → P (entry a k)
  unfolding contains
  entries-Every P [] h a k i e = ground (arith, i)
  entries-Every P (b ∷ as_) h a k i e = elim (Bool-cases (b == a)) [
    | inl same ↦
        let on : b ≡ a = ground (arith, same) in
        elim (entries-how b as_) [
          | inl (lost, now) ↦
              let ab : picked board (row_of b) ≡ picked board (row_of a) =
                ap (λ x. picked board (row_of x)) on in
              ground (arith, lost, ab, e)
          | inr (n, has, now) ↦
              let ab : picked board (row_of b) ≡ picked board (row_of a) =
                ap (λ x. picked board (row_of x)) on in
              let nk : n ≡ k = ground (arith, has, ab, e) in
              let all : Every P (entry b n ∷ entries board (map row_of as_)) =
                subst (Every P) now h in
              subst (λ x. P (entry x k)) on (subst (λ x. P (entry b x)) nk all.0)
        ]
    | inr other ↦ entries-Every P as_ (tail b as_ h) a k (ground (arith, i, other)) e
  ]
    where
      tail :
          (b : ℕ) (as_ : List ℕ)
          → Every P (entries board (map row_of (b ∷ as_)))
          → Every P (entries board (map row_of as_))
      tail b as_ h = elim (entries-how b as_) [
        | inl (lost, now) ↦ subst (Every P) now h
        | inr (n, has, now) ↦
            let all : Every P (entry b n ∷ entries board (map row_of as_)) =
              subst (Every P) now h in
            all.1
      ]

  pub Every-entries :
      (P : RecordEntry → Type 0) (as_ : List ℕ)
      → ((a k : ℕ) → picked board (row_of a) ≡ some k → P (entry a k))
      → Every P (entries board (map row_of as_))
  unfolding entries
  Every-entries P [] f = tt
  Every-entries P (a ∷ as_) f = elim (entries-how a as_) [
    | inl (lost, now) ↦ subst (Every P) (sym now) (Every-entries P as_ f)
    | inr (k, has, now) ↦ subst (Every P) (sym now) (f a k has, Every-entries P as_ f)
  ]

  abbrev pub Listed : List Run → Run → Type 0
  Listed rs r =
      (not (is_of_game game r) || contains r.account_id (accounts_of (is_of_game game) rs)) ≡ true

  accounts_of_mono :
      (x : ℕ) (r : Run) (rs : List Run)
      → contains x (accounts_of (is_of_game game) rs) ≡ true
      → contains x (accounts_of (is_of_game game) (r ∷ rs)) ≡ true
  unfolding accounts_of contains
  accounts_of_mono x r rs h = ground (arith, h)

  pub accounts_of-Listed : (rs : List Run) → Every (Listed rs) rs
  unfolding accounts_of contains
  accounts_of-Listed [] = tt
  accounts_of-Listed (r ∷ rs) = (
    ground arith,
    Every-imp (Listed rs) (Listed (r ∷ rs)) rs
        (λ x h. ground (arith, h, accounts_of_mono x.account_id r rs)) (accounts_of-Listed rs),
  )

  -- Of a run: an account with a record at least as good, if the board ranks the run.
  abbrev pub Covered : ℕ → Run → Type 0
  Covered a r =
      (ranks_of a r ≡ false)
      ⊎ ((k : ℕ) × (picked board (row_of a) ≡ some k) × (beats board r.steps k ≡ false))

  Covered-picked :
      (a : ℕ) (o : Option ℕ)
      → picked board (row_of a) ≡ o
      → IsBest board (ranks_of a) rows o
      → Every (Covered a) rows
  Covered-picked a none e h =
      Every-imp (λ r. ranks_of a r ≡ false) (Covered a) rows (λ r x. inl x) h
  Covered-picked a (some k) e h =
      Every-imp (λ r. ranks_of a r && beats board r.steps k ≡ false) (Covered a) rows
        (λ r x. elim (Bool-cases (ranks_of a r)) [
          | inl on ↦ inr (k, e, ground (arith, x, on))
          | inr off ↦ inl off
        ])
        h.1

  pub picked-IsBest : (a : ℕ) → IsBest board (ranks_of a) rows (picked board (row_of a))
  picked-IsBest a =
      subst (IsBest board (ranks_of a) rows) (sym (picked-best board a))
        (steps_of-IsBest board (ranks_of a) rows)

  pub all-Covered : Every (λ r. Covered r.account_id r) rows
  all-Covered =
      Every-diag Covered (λ (r : Run). r.account_id) rows
        (λ a. Covered-picked a (picked board (row_of a)) refl (picked-IsBest a))
