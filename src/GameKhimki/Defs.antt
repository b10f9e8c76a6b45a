-- ===== src/GameKhimki/Defs.antt =====
-- internal/gamekhimki/gamekhimki.go, content.go, evaluator.go and the types of llm.go.
use psycho_space.Prelude.{
  ℕ, ℤ, pos, negsuc, Text, eq_text, contains_text, Bool, false, ◌||◌, List, [], ◌∷◌, Option, none,
  some, map, ltb, if◌then◌else◌,
}

abbrev pub max_steps : ℕ
max_steps = 1000

abbrev pub max_anger : ℕ
max_anger = 100

abbrev pub anger_lose_at : ℕ
anger_lose_at = 90

abbrev pub theme_confirm_turns : ℕ
theme_confirm_turns = 2

abbrev pub theme_auto_done_turns : ℕ
theme_auto_done_turns = 4

abbrev pub option_count : ℕ
option_count = 4

abbrev pub anger_drift_on_missing : ℕ
anger_drift_on_missing = 5

abbrev pub history_exchanges : ℕ
history_exchanges = 12

pub record Theme : Type 0 where
  pub key : Text
  pub keywords : List Text

-- The fields that the rules read; the texts of the prompt are left out.
pub record Character : Type 0 where
  pub key : Text
  pub opening_options : List Text
  pub arts : List Text
  pub game_over_art : Text
  pub themes : List Theme

pub record Exchange : Type 0 where
  pub choice : Text
  pub reply : Text
  pub options : List Text

pub record TurnResult : Type 0 where
  pub reply : Text
  pub art : Text
  pub achieved : Bool
  pub game_over : Bool
  pub anger : ℕ
  pub options : List Text
  pub themes_done : List Text

pub record JudgeReply : Type 0 where
  pub reply : Text
  pub art : Text
  pub achieved : Bool
  pub game_over : Bool
  pub options : List Text
  pub anger : Option ℤ
  pub themes_done : Option (List Text)

-- `ClampAnger`
unfoldable pub clamp_anger : ℤ → ℕ
clamp_anger (negsuc n) = 0
clamp_anger (pos n) = if ltb max_anger n then max_anger else n

unfoldable pub any_in : List Text → Text → Bool
any_in [] low = false
any_in (k ∷ ks) low = contains_text low k || any_in ks low

-- `Theme.matches`
unfoldable pub matches : (Text → Text) → Theme → Text → Bool
unfolding any_in
matches lower t text = any_in t.keywords (lower text)

abbrev pub theme_keys : Character → List Text
theme_keys ch = map (λ (t : Theme). t.key) ch.themes

unfoldable pub find_character : Text → List Character → Option Character
find_character key [] = none
find_character key (c ∷ cs) = if eq_text c.key key then some c else find_character key cs
