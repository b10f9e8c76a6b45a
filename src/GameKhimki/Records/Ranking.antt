-- ===== src/GameKhimki/Records/Ranking.antt =====
-- internal/gamekhimki/service.go: Leaderboard, from the table of runs to the boards that are shown.
use psycho_space.Prelude.{
  ℕ, zero, suc, ◌≤◌, ◌<◌, ◌≡◌, refl, sym, subst, ℤ, pos, negsuc, ◌⊎◌, inl, inr, Text, Bool, true,
  false, ◌&&◌, List, [], ◌∷◌, ltb, ◌==◌, order_by, arith, length, Every, Every-zip, Every-imp,
  Every-order_by, order_by-Every, AllAfter-Every, IsOrdered, AllAfter, order_by-IsOrdered,
  Bool-cases,
}
use psycho_space.GameKhimki.Records.{
  Run, RecordEntry, RecordBoard, is_of_game, accounts_of, GameError, known_game, leaderboard,
  records, entries, after_entry, first_of, build_boards, limit_of, max_limit,
}
use psycho_space.GameKhimki.Records.Best.{beats, ranks, any_run, IsBest}
use psycho_space.GameKhimki.Records.Boards.{
  is_run_of, IsTop, entry, ranks_of, entries-Every, Every-entries, Listed, accounts_of-Listed,
  Covered, all-Covered, picked-IsBest,
}

length-first_of : (n : ℕ) (es : List RecordEntry) → length (first_of n es) ≤ n
unfolding first_of
length-first_of zero es = omega arith
length-first_of (suc n) [] = omega arith
length-first_of (suc n) (e ∷ es) = omega (arith, length-first_of n es)

AllAfter-first_of :
    (board : RecordBoard) (n : ℕ) (e : RecordEntry) (es : List RecordEntry)
    → AllAfter (after_entry board) e es
    → AllAfter (after_entry board) e (first_of n es)
unfolding first_of
AllAfter-first_of board zero e es h = tt
AllAfter-first_of board (suc n) e [] h = tt
AllAfter-first_of board (suc n) e (x ∷ es) h = (h.0, AllAfter-first_of board n e es h.1)

first_of-IsOrdered :
    (board : RecordBoard) (n : ℕ) (es : List RecordEntry)
    → IsOrdered (after_entry board) es
    → IsOrdered (after_entry board) (first_of n es)
unfolding first_of
first_of-IsOrdered board zero es h = tt
first_of-IsOrdered board (suc n) [] h = tt
first_of-IsOrdered board (suc n) (e ∷ es) h =
    (AllAfter-first_of board n e es h.0, first_of-IsOrdered board n es h.1)

after_entry-asym :
    (board : RecordBoard) (x y : RecordEntry)
    → after_entry board x y ≡ true
    → after_entry board y x ≡ false
after_entry-asym board x y h = ground (arith, h)

after_entry_trans :
    (board : RecordBoard) (x y z : RecordEntry)
    → after_entry board x y ≡ false
    → after_entry board y z ≡ false
    → after_entry board x z ≡ false
after_entry_trans board x y z h g = ground (arith, h, g)

module _ (board : RecordBoard) (game : Text) (rows : List Run) where
  abbrev all : List RecordEntry
  all = entries board (records game rows)

  abbrev IsShown : (RecordEntry → Type 0) → Run → Type 0
  IsShown P r =
      (ranks board game r ≡ false)
      ⊎ ((e : RecordEntry) × P e × (beats board r.steps e.steps ≡ false))

  -- What holds of every entry holds of one that is at least as good as a given run that is ranked.
  shown : (P : RecordEntry → Type 0) → Every P all → Every (IsShown P) rows
  unfolding records
  shown P h =
      Every-zip (Listed board game rows rows) (λ r. Covered board game rows r.account_id r)
        (IsShown P) rows
        (λ r listed covered. elim (Bool-cases (ranks board game r)) [
          | inr off ↦ inl off
          | inl on ↦ elim covered [
            | inl off ↦ ground (arith, on, off)
            | inr (k, e, good) ↦ inr (
              entry board game rows r.account_id k,
              entries-Every board game rows P (accounts_of (is_of_game game) rows) h r.account_id k
                  (ground (arith, on, listed)) e,
              good,
            )
          ]
        ])
        (accounts_of-Listed board game rows rows) (all-Covered board game rows)

  abbrev IsReal : RecordEntry → Type 0
  IsReal e = any_run (is_run_of board game e) rows ≡ true

  any_run-cong :
      (p q : Run → Bool) (rs : List Run)
      → ((r : Run) → p r ≡ true → q r ≡ true)
      → any_run p rs ≡ true
      → any_run q rs ≡ true
  unfolding any_run
  any_run-cong p q [] f h = h
  any_run-cong p q (r ∷ rs) f h = ground (arith, f r, h, any_run-cong p q rs f)

  all-IsReal : Every IsReal all
  unfolding records
  all-IsReal = Every-entries board game rows IsReal (accounts_of (is_of_game game) rows) (λ a k e.
      any_run-cong (λ r. ranks_of board game rows a r && r.steps == k)
        (is_run_of board game (entry board game rows a k)) rows (λ r h. ground (arith, h))
        (subst (IsBest board (ranks_of board game rows a) rows) e
          (picked-IsBest board game rows a)).0)

  top :
      (n : ℕ) (es : List RecordEntry)
      → IsOrdered (after_entry board) es
      → Every IsReal es
      → ((P : RecordEntry → Type 0) → Every P es → Every (IsShown P) rows)
      → IsTop board game rows (first_of (suc n) es)
  unfolding first_of
  top n [] ordered real f =
      Every-imp (IsShown (λ e. true ≡ false)) (λ r. ranks board game r ≡ false) rows
        (λ r h. elim h [ inl off ↦ off | inr (e, never, good) ↦ ground (arith, never) ])
        (f (λ e. true ≡ false) tt)
  top n (e ∷ es) ordered real f = (
    real.0,
    Every-imp (IsShown (λ x. after_entry board e x ≡ false))
        (λ r. ranks board game r && beats board r.steps e.steps ≡ false) rows
        (λ r h. elim h [
          | inl off ↦ ground (arith, off)
          | inr (x, behind, good) ↦ ground (arith, behind, good)
        ])
        (f (λ x. after_entry board e x ≡ false)
          (ground arith, AllAfter-Every (after_entry board) e es ordered.0)),
  )

abbrev pub IsBoard :
    RecordBoard → Text → ℤ → List Run → GameError ⊎ (RecordBoard → List RecordEntry) → Type 0
IsBoard board game limit rows (inl err) = known_game game ≡ false
IsBoard board game limit rows (inr boards) =
    IsOrdered (after_entry board) (boards board)
    × (length (boards board) ≤ limit_of limit)
    × (limit_of limit ≤ max_limit)
    × IsTop board game rows (boards board)

limit_of-pos : (limit : ℤ) → (n : ℕ) × (limit_of limit ≡ suc n) × (n < max_limit)
limit_of-pos (negsuc n) = (19, refl, omega arith)
limit_of-pos (pos zero) = (19, ground arith, omega arith)
limit_of-pos (pos (suc n)) = elim (Bool-cases (ltb max_limit (suc n))) [
  | inl e ↦ (99, ground (arith, e), omega arith)
  | inr e ↦ (n, ground (arith, e), ground (arith, e))
]

served :
    (board : RecordBoard) (game : Text) (limit : ℤ) (rows : List Run)
    → IsBoard board game limit rows (inr (build_boards (records game rows) (limit_of limit)))
unfolding build_boards
served board game limit rows =
    let es : List RecordEntry = order_by (after_entry board) (entries board (records game rows)) in
    let ordered : IsOrdered (after_entry board) es =
      order_by-IsOrdered (after_entry board) (after_entry-asym board) (after_entry_trans board)
        (entries board (records game rows)) in
    let (n, is, small) = limit_of-pos limit in
    (
      first_of-IsOrdered board (limit_of limit) es ordered,
      length-first_of (limit_of limit) es,
      omega (arith, is, small),
      subst (λ m. IsTop board game rows (first_of m es)) (sym is)
          (top board game rows n es ordered
            (Every-order_by (after_entry board) (IsReal board game rows)
              (entries board (records game rows)) (all-IsReal board game rows))
            (λ P h.
              shown board game rows P
                (order_by-Every (after_entry board) P (entries board (records game rows)) h))),
    )

pub leaderboard_lem :
    (board : RecordBoard) (game : Text) (limit : ℤ) (rows : List Run)
    → IsBoard board game limit rows (leaderboard game limit rows)
unfolding leaderboard
leaderboard_lem board game limit rows = elim (Bool-cases (known_game game)) [
  | inl e ↦ rw (e, leaderboard) (served board game limit rows)
  | inr e ↦ rw (e, leaderboard) e
]
