-- ===== src/GameKhimki/Examples.antt =====
-- The theorems of the dialogue game at concrete inputs.
use psycho_space.Prelude.{
  ℕ, ◌≡◌, refl, pos, Text, true, false, List, [], ◌∷◌, Option, none, some, arith, Every, eq_text,
  if◌then◌else◌, trim_space, trim_left, trim_right, is_space, contains_text, ◌↔◌, length, ◌+◌,
}
use psycho_space.GameKhimki.Themes.Progress.{IsPlain}
use psycho_space.GameKhimki.Salvage.{escape_control}
use psycho_space.GameKhimki.Salvage.Escaping.{is_clean, escape_control_lem}
use psycho_space.GameKhimki.Verse.{normalize_verse, real_lines, collapse_all, three_lines}
use psycho_space.GameKhimki.Verse.Ending.{normalize_verse_lem}
use psycho_space.GameKhimki.Window.{window_transcript, recently_offered}
use psycho_space.GameKhimki.Window.Fitting.{IsWindow, window_transcript_lem}
use psycho_space.GameKhimki.Window.Offering.{IsList, recently_offered-IsList}
use psycho_space.GameKhimki.Defs.{
  clamp_anger, find_character, theme_keys, Theme, Character, Exchange, JudgeReply,
}
use psycho_space.GameKhimki.Salvage.{Field}
use psycho_space.GameKhimki.Themes.{engagement, steer_theme}
use psycho_space.GameKhimki.Themes.Steering.{IsChosen, steer_theme_lem}
use psycho_space.GameKhimki.Turn.{read_reply, LlmResponse, answered, Choice, judge}
use psycho_space.GameKhimki.Turn.Fairness.{OnTurn, IsFair, judge-IsFair}
use psycho_space.GameKhimki.Turn.Openings.{IsEarned, judge-IsEarned}
use psycho_space.GameKhimki.Turn.Drift.{Move, loses, loses_lem}
use psycho_space.GameKhimki.Records.{
  Run, board_longest_win, leaderboard, submit_run, game_smalltalk_khimki,
}
use psycho_space.GameKhimki.Records.Submission.{Shows, submit_run-leaderboard}

abbrev same : Text → Text
same s = s

-- A theme of the key "a" and the word "b", and one of the key "c" and the word "d".
abbrev friend : Theme
friend = record { key = 97 ∷ []; keywords = (98 ∷ []) ∷ [] }

abbrev drink : Theme
drink = record { key = 99 ∷ []; keywords = (100 ∷ []) ∷ [] }

abbrev vanya : Character
vanya = record {
  key = 118 ∷ [];
  opening_options = [];
  arts = (120 ∷ []) ∷ (121 ∷ []) ∷ [];
  game_over_art = 121 ∷ [];
  themes = friend ∷ drink ∷ [];
}

-- A reply that claims the theme "c" and says nothing about the anger.
abbrev reply : JudgeReply
reply = record {
  reply = 98 ∷ [];
  art = 120 ∷ [];
  achieved = false;
  game_over = false;
  options = (49 ∷ []) ∷ (50 ∷ []) ∷ [];
  anger = none;
  themes_done = some ((99 ∷ []) ∷ []);
}

abbrev reads : Text → Option JudgeReply
reads s = some reply

abbrev no_fields : Text → Option (List Field)
no_fields s = none

abbrev no_strings : Text → Option (List Text)
no_strings s = none

abbrev message : Choice
message = record { content = 123 ∷ []; finish_reason = [] }

abbrev provider : Character → List Exchange → Text → ℕ → List Text → (Text → ℕ) → LlmResponse
provider ch transcript choice anger done eng = answered (message ∷ [])

vanya_keys : Every (IsPlain same) (theme_keys vanya)
unfolding trim_space trim_left trim_right is_space
vanya_keys = ((refl, refl), ((refl, refl), tt))

judge-IsFair_example :
    OnTurn
      (IsFair vanya)
      (judge no_strings no_fields reads same provider vanya [] (98 ∷ []) (pos 88) ((97 ∷ []) ∷ []))
judge-IsFair_example =
    judge-IsFair no_strings no_fields reads same provider vanya [] (98 ∷ []) (pos 88)
      ((97 ∷ []) ∷ [])

judge-IsEarned_example :
    OnTurn
      (λ r.
        IsEarned same vanya vanya_keys
          ((97 ∷ []) ∷ [])
          (engagement same vanya.themes [] (100 ∷ []))
          (97 ∷ [])
          r.themes_done)
      (judge no_strings no_fields reads same provider vanya [] (100 ∷ []) (pos 40) ((97 ∷ []) ∷ []))
judge-IsEarned_example =
    judge-IsEarned same vanya vanya_keys no_strings no_fields reads provider [] (100 ∷ []) (pos 40)
      ((97 ∷ []) ∷ []) (97 ∷ [])

abbrev push_on : Move
push_on = record { choice = 98 ∷ []; response = answered (message ∷ []) }

-- The anger begins at 80, and two turns of silence lose.
loses_lem_example :
    loses no_strings no_fields reads same vanya [] (pos 80) [] (push_on ∷ push_on ∷ []) ≡ true
unfolding read_reply clamp_anger
loses_lem_example =
    loses_lem no_strings no_fields reads same vanya [] (pos 80) [] push_on (push_on ∷ [])
      (
        (reply, message, [], refl, refl, refl, refl),
        ((reply, message, [], refl, refl, refl, refl), tt),
      )
      (omega arith)

-- The theme "c" has been touched once, and "a" never.
abbrev touched : Text → ℕ
touched k = if eq_text k (99 ∷ []) then 1 else 0

abbrev said_before : List Exchange
said_before =
    record { choice = 98 ∷ []; reply = 98 ∷ []; options = (49 ∷ []) ∷ (49 ∷ 32 ∷ []) ∷ [] } ∷ []

steer_theme_lem_example : IsChosen touched vanya [] (steer_theme vanya [] touched)
steer_theme_lem_example = steer_theme_lem touched vanya []

window_transcript_lem_example : IsWindow 6000 said_before (window_transcript said_before (pos 6000))
window_transcript_lem_example = window_transcript_lem said_before (pos 6000)

recently_offered-IsList_example : IsList same (recently_offered same vanya said_before)
recently_offered-IsList_example = recently_offered-IsList same vanya said_before

-- A quote, a line feed in the string, and the quote that ends it.
escape_control_lem_example :
    (is_clean (false, false) (escape_control (34 ∷ 10 ∷ 34 ∷ [])) ≡ true)
    × (is_clean (false, false) (34 ∷ 10 ∷ 34 ∷ []) ≡ true
        ↔ escape_control (34 ∷ 10 ∷ 34 ∷ []) ≡ 34 ∷ 10 ∷ 34 ∷ [])
escape_control_lem_example = escape_control_lem (34 ∷ 10 ∷ 34 ∷ [])

abbrev verse : Text
verse = 97 ∷ 10 ∷ 10 ∷ 10 ∷ 10 ∷ 98 ∷ []

normalize_verse_lem_example :
    (trim_space (collapse_all (3 + length (real_lines 0 verse)) (real_lines 0 verse))
      ≡ normalize_verse verse)
    × (contains_text (normalize_verse verse) three_lines ≡ false)
normalize_verse_lem_example = normalize_verse_lem 3 verse

abbrev won : Run
won = record {
  id = 1;
  account_id = 5;
  game_key = game_smalltalk_khimki;
  character_key = 118 ∷ [];
  success = true;
  steps = 7;
  deleted_at = none;
}

submit_run-leaderboard_example : Shows board_longest_win 9 (
    leaderboard game_smalltalk_khimki
      (pos 10)
      (submit_run (vanya ∷ []) 6 game_smalltalk_khimki (118 ∷ []) true (pos 9) 2 (won ∷ [])).1)
unfolding find_character eq_text
submit_run-leaderboard_example =
    submit_run-leaderboard board_longest_win (pos 10) (vanya ∷ []) 6 game_smalltalk_khimki
      (118 ∷ []) 9 2 (won ∷ []) refl
