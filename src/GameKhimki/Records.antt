-- ===== src/GameKhimki/Records.antt =====
-- internal/gamekhimki/service.go, postgres_repository.go: recorded runs and the boards. An account is a
-- number that stands in the order of the ids, and the characters are a parameter.
pub mod Best
pub mod Boards
pub mod Ranking
pub mod Submission
use psycho_space.Prelude.{
  ℕ, zero, suc, ◌+◌, ℤ, pos, negsuc, ◌⊎◌, inl, inr, Text, eq_text, Bool, true, false, ◌&&◌, ◌||◌,
  not, List, [], ◌∷◌, ◌++◌, Option, none, some, ltb, ◌==◌, if◌then◌else◌, keep, count_by, contains,
  map, order_by,
}
use psycho_space.Account.Rows.{is_null}
use psycho_space.GameKhimki.Defs.{Character, find_character, max_steps}

pub data GameError : Type 0 where
  unknown_game unknown_character steps_range : GameError

pub data RecordBoard : Type 0 where
  board_longest_win board_shortest_win board_longest_loss board_shortest_loss : RecordBoard

-- A row of game_khimki_runs.
pub record Run : Type 0 where
  pub id : ℕ
  pub account_id : ℕ
  pub game_key : Text
  pub character_key : Text
  pub success : Bool
  pub steps : ℕ
  pub deleted_at : Option ℕ

pub record PlayerRecords : Type 0 where
  pub account_id : ℕ
  pub plays : ℕ
  pub wins : ℕ
  pub losses : ℕ
  pub longest_win : Option ℕ
  pub shortest_win : Option ℕ
  pub longest_loss : Option ℕ
  pub shortest_loss : Option ℕ

pub record RecordEntry : Type 0 where
  pub account_id : ℕ
  pub steps : ℕ
  pub plays : ℕ
  pub wins : ℕ
  pub losses : ℕ

pub record PlayerStats : Type 0 where
  pub successes : ℕ
  pub plays : ℕ
  pub best_steps : ℕ

-- "smalltalk_khimki"
abbrev pub game_smalltalk_khimki : Text
game_smalltalk_khimki =
    115 ∷ 109 ∷ 97 ∷ 108 ∷ 108 ∷ 116 ∷ 97 ∷ 108 ∷ 107 ∷ 95 ∷ 107 ∷ 104 ∷ 105 ∷ 109 ∷ 107 ∷ 105 ∷ []

abbrev pub known_game : Text → Bool
known_game key = eq_text key game_smalltalk_khimki

-- `WHERE game_key = $1 AND deleted_at IS NULL`, of one account, and of the runs that ended one way.
abbrev pub is_of_game : Text → Run → Bool
is_of_game game r = eq_text r.game_key game && is_null r.deleted_at

abbrev pub is_of : Text → ℕ → Run → Bool
is_of game account r = is_of_game game r && r.account_id == account

abbrev pub ended : Bool → Run → Bool
ended success r = if success then r.success else not r.success

-- `max` and `min`, none of no rows: `best longer` of the steps.
unfoldable pub best : (ℕ → ℕ → Bool) → List ℕ → Option ℕ
best better [] = none
best better (n ∷ ns) = elim (best better ns) [
  | none ↦ some n
  | some k ↦ some (if better k n then k else n)
]

abbrev pub more : ℕ → ℕ → Bool
more a b = ltb b a

abbrev pub fewer : ℕ → ℕ → Bool
fewer a b = ltb a b

unfoldable pub steps_of : (Run → Bool) → List Run → List ℕ
steps_of test [] = []
steps_of test (r ∷ rows) = let rest = steps_of test rows in if test r then r.steps ∷ rest else rest

abbrev pub ended_of : Text → Bool → ℕ → Run → Bool
ended_of game success account r = is_of game account r && ended success r

-- `GROUP BY account_id`
unfoldable pub accounts_of : (Run → Bool) → List Run → List ℕ
accounts_of test [] = []
accounts_of test (r ∷ rows) =
    let rest = accounts_of test rows in
    if test r && not (contains r.account_id rest) then r.account_id ∷ rest else rest

-- One row of `Records`.
unfoldable pub record_of : Text → List Run → ℕ → PlayerRecords
unfolding best steps_of
record_of game rows account = record {
  account_id = account;
  plays = count_by (is_of game account) rows;
  wins = count_by (ended_of game true account) rows;
  losses = count_by (ended_of game false account) rows;
  longest_win = best more (steps_of (ended_of game true account) rows);
  shortest_win = best fewer (steps_of (ended_of game true account) rows);
  longest_loss = best more (steps_of (ended_of game false account) rows);
  shortest_loss = best fewer (steps_of (ended_of game false account) rows);
}

-- `Records`
unfoldable pub records : Text → List Run → List PlayerRecords
unfolding record_of accounts_of
records game rows = map (record_of game rows) (accounts_of (is_of_game game) rows)

-- `StatsFor`
abbrev pub coalesce_zero : Option ℕ → ℕ
coalesce_zero none = 0
coalesce_zero (some n) = n

unfoldable pub stats_for : Text → ℕ → List Run → PlayerStats
unfolding best steps_of
stats_for game account rows = record {
  successes = count_by (ended_of game true account) rows;
  plays = count_by (is_of game account) rows;
  best_steps = coalesce_zero (best fewer (steps_of (ended_of game true account) rows));
}

-- `SubmitRun`, with the id that the table generates.
unfoldable pub submit_run :
    List Character → ℕ → Text → Text → Bool → ℤ → ℕ → List Run → (GameError ⊎ Run) × List Run
submit_run characters account game character success (negsuc n) id rows =
    if not (known_game game)
    then (inl unknown_game, rows)
    else elim (find_character character characters) [
      | none ↦ (inl unknown_character, rows)
      | some c ↦ (inl steps_range, rows)
    ]
submit_run characters account game character success (pos n) id rows =
    if not (known_game game)
    then (inl unknown_game, rows)
    else elim (find_character character characters) [
      | none ↦ (inl unknown_character, rows)
      | some c ↦
          if ltb max_steps n
          then (inl steps_range, rows)
          else let run : Run = record {
            id = id;
            account_id = account;
            game_key = game;
            character_key = character;
            success = success;
            steps = n;
            deleted_at = none;
          } in
            (inr run, rows ++ run ∷ [])
    ]

-- The table of `pick`.
abbrev pub picked : RecordBoard → PlayerRecords → Option ℕ
picked board_longest_win p = p.longest_win
picked board_shortest_win p = p.shortest_win
picked board_longest_loss p = p.longest_loss
picked board_shortest_loss p = p.shortest_loss

abbrev pub desc : RecordBoard → Bool
desc board_longest_win = true
desc board_shortest_win = false
desc board_longest_loss = true
desc board_shortest_loss = false

unfoldable pub entries : RecordBoard → List PlayerRecords → List RecordEntry
entries board [] = []
entries board (p ∷ ps) = elim (picked board p) [
  | none ↦ entries board ps
  | some n ↦
      record {
        account_id = p.account_id;
        steps = n;
        plays = p.plays;
        wins = p.wins;
        losses = p.losses;
      }
      ∷ entries board ps
]

-- The comparison of the sort is positive.
abbrev pub after_entry : RecordBoard → RecordEntry → RecordEntry → Bool
after_entry board x y =
    if x.steps == y.steps
    then ltb y.account_id x.account_id
    else if desc board
    then ltb x.steps y.steps
    else ltb y.steps x.steps

unfoldable pub first_of : ℕ → List RecordEntry → List RecordEntry
first_of zero es = []
first_of (suc n) [] = []
first_of (suc n) (e ∷ es) = e ∷ first_of n es

-- `buildBoards`
unfoldable pub build_boards : List PlayerRecords → ℕ → RecordBoard → List RecordEntry
unfolding entries first_of
build_boards ps limit board = first_of limit (order_by (after_entry board) (entries board ps))

abbrev pub default_limit : ℕ
default_limit = 20

abbrev pub max_limit : ℕ
max_limit = 100

abbrev pub limit_of : ℤ → ℕ
limit_of (negsuc n) = default_limit
limit_of (pos n) = if n == 0 then default_limit else if ltb max_limit n then max_limit else n

-- `Leaderboard` and `Stats`
unfoldable pub leaderboard : Text → ℤ → List Run → GameError ⊎ (RecordBoard → List RecordEntry)
unfolding records build_boards
leaderboard game limit rows =
    if not (known_game game)
    then inl unknown_game
    else inr (build_boards (records game rows) (limit_of limit))

unfoldable pub stats : Text → ℕ → List Run → GameError ⊎ PlayerStats
unfolding stats_for
stats game account rows =
    if not (known_game game) then inl unknown_game else inr (stats_for game account rows)
