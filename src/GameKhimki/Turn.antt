-- ===== src/GameKhimki/Turn.antt =====
-- internal/gamekhimki/llm.go: one turn of a dialogue, judged. The provider is the parameter `ask`, a
-- function of all that the prompt is written from.
pub mod Fairness
pub mod Openings
pub mod Drift
use psycho_space.Prelude.{
  ℕ, ◌+◌, ℤ, pos, ◌⊎◌, inl, inr, Text, eq_text, has_text, trim_space, Bool, true, false, ◌&&◌, ◌||◌,
  not, List, [], ◌∷◌, Option, none, some, leb, zero, suc, if◌then◌else◌,
}
use psycho_space.GameKhimki.Defs.{
  Character, Exchange, JudgeReply, TurnResult, clamp_anger, anger_lose_at, anger_drift_on_missing,
  option_count,
}
use psycho_space.GameKhimki.Themes.{clamp_themes, engagement, auto_mark_themes, confirm_themes}
use psycho_space.GameKhimki.Verse.{normalize_verse}
use psycho_space.GameKhimki.Salvage.{Field, salvage}

pub data LlmError : Type 0 where
  request_failed undecodable no_choices truncated unparsable : LlmError
  http_status : ℕ → LlmError

pub record Choice : Type 0 where
  pub content : Text
  pub finish_reason : Text

-- What comes of the request: no response, one with a status, and the choices of its body.
pub data LlmResponse : Type 0 where
  broken garbled : LlmResponse
  refused : ℕ → LlmResponse
  answered : List Choice → LlmResponse

-- "length"
abbrev pub length_reason : Text
length_reason = 108 ∷ 101 ∷ 110 ∷ 103 ∷ 116 ∷ 104 ∷ []

unfoldable pub normalize_art : Text → List Text → Text
normalize_art got [] = []
normalize_art got (a ∷ allowed) =
    if has_text (trim_space got) (a ∷ allowed) then trim_space got else a

unfoldable pub take : ℕ → List Text → List Text
take zero xs = []
take (suc n) [] = []
take (suc n) (x ∷ xs) = x ∷ take n xs

-- `optionsWhilePlaying`
unfoldable pub options_while_playing : Bool → List Text → List Text
unfolding take
options_while_playing over opts = if over then [] else take option_count opts

unfoldable pub new_anger : ℕ → Option ℤ → ℕ
new_anger anger none = clamp_anger (pos (anger + anger_drift_on_missing))
new_anger anger (some a) = clamp_anger a

unfoldable pub is_over : Bool → Bool → ℕ → Bool
is_over game_over achieved anger = (game_over || leb anger_lose_at anger) && not achieved

unfoldable pub shown_art : Character → Bool → Text → Text
unfolding normalize_art
shown_art ch over art =
    if over && not (eq_text ch.game_over_art [])
    then normalize_art ch.game_over_art ch.arts
    else normalize_art art ch.arts

module _ (lower : Text → Text) where
  unfoldable pub new_themes : Character → List Text → Option (List Text) → (Text → ℕ) → List Text
  unfolding confirm_themes
  new_themes ch done none eng = done
  new_themes ch done (some claimed) eng = confirm_themes lower ch done claimed eng

  -- The turn that a readable reply makes.
  unfoldable pub turn_of : Character → ℕ → List Text → (Text → ℕ) → JudgeReply → TurnResult
  unfolding new_anger is_over shown_art new_themes options_while_playing normalize_verse
  turn_of ch anger done eng jr =
      let over = is_over jr.game_over jr.achieved (new_anger anger jr.anger) in
      record {
        reply = normalize_verse jr.reply;
        art = shown_art ch over jr.art;
        achieved = jr.achieved;
        game_over = over;
        anger = new_anger anger jr.anger;
        themes_done = new_themes ch done jr.themes_done eng;
        options = options_while_playing (jr.achieved || over) jr.options;
      }

  -- The themes that are open as a turn begins.
  unfoldable pub themes_before : Character → List Exchange → Text → List Text → List Text
  unfolding clamp_themes auto_mark_themes engagement
  themes_before ch transcript choice themes =
      auto_mark_themes lower ch (clamp_themes lower ch themes)
        (engagement lower ch.themes transcript choice)

module _ (strings : Text → Option (List Text)) (object : Text → Option (List Field))
    (parse : Text → Option JudgeReply) where
  -- The reply in a message, read or recovered.
  unfoldable pub read_reply : Text → Option JudgeReply
  unfolding salvage
  read_reply content = elim (parse content) [
    | some jr ↦ some jr
    | none ↦ salvage strings object parse content
  ]

  module _ (lower : Text → Text) where
    unfoldable pub hear :
        Character → ℕ → List Text → (Text → ℕ) → LlmResponse → LlmError ⊎ TurnResult
    unfolding read_reply turn_of
    hear ch anger done eng broken = inl request_failed
    hear ch anger done eng (refused status) = inl (http_status status)
    hear ch anger done eng garbled = inl undecodable
    hear ch anger done eng (answered []) = inl no_choices
    hear ch anger done eng (answered (c ∷ cs)) = elim (read_reply c.content) [
      | none ↦ inl (if eq_text c.finish_reason length_reason then truncated else unparsable)
      | some jr ↦ inr (turn_of lower ch anger done eng jr)
    ]

    -- `Judge` of the evaluator.
    unfoldable pub judge :
        (Character → List Exchange → Text → ℕ → List Text → (Text → ℕ) → LlmResponse)
        → Character
        → List Exchange
        → Text
        → ℤ
        → List Text
        → LlmError ⊎ TurnResult
    unfolding engagement hear themes_before
    judge ask ch transcript choice anger themes =
        let eng : Text → ℕ = engagement lower ch.themes transcript choice in
        let done : List Text = themes_before lower ch transcript choice themes in
        hear ch (clamp_anger anger) done eng (ask ch transcript choice (clamp_anger anger) done eng)
