-- ===== src/GameKhimki/Turn/Fairness.antt =====
-- internal/gamekhimki/llm.go: what a turn can be, whatever the provider answers.
use psycho_space.Prelude.{
  ℕ, ◌+◌, ◌≤◌, ◌≡◌, refl, ℤ, pos, negsuc, ◌⊎◌, inl, inr, Text, eq_text, eq_text_refl, has_text,
  Bool, true, false, ◌&&◌, ◌||◌, not, List, [], ◌∷◌, Option, none, some, ltb, zero, suc,
  if◌then◌else◌, length, arith, Bool-cases, Option-cases,
}
use psycho_space.GameKhimki.Defs.{
  Character, Exchange, JudgeReply, TurnResult, clamp_anger, anger_lose_at, anger_drift_on_missing,
  option_count, max_anger,
}
use psycho_space.GameKhimki.Salvage.{Field}
use psycho_space.GameKhimki.Themes.{engagement}
use psycho_space.GameKhimki.Turn.{
  LlmResponse, broken, refused, garbled, answered, LlmError, turn_of, hear, judge, themes_before,
  take, options_while_playing, new_anger, is_over, normalize_art, shown_art, read_reply,
}

pub clamp_anger-bounded : (a : ℤ) → clamp_anger a ≤ max_anger
unfolding clamp_anger
clamp_anger-bounded (pos n) = ground arith
clamp_anger-bounded (negsuc n) = ground arith

length-take : (n : ℕ) (xs : List Text) → length (take n xs) ≤ n
unfolding take
length-take zero xs = omega arith
length-take (suc n) [] = omega arith
length-take (suc n) (x ∷ xs) = omega (arith, length-take n xs)

new_anger-bounded : (anger : ℕ) (a : Option ℤ) → new_anger anger a ≤ max_anger
unfolding new_anger
new_anger-bounded anger none = clamp_anger-bounded (pos (anger + anger_drift_on_missing))
new_anger-bounded anger (some a) = clamp_anger-bounded a

abbrev IsShown : List Text → Text → Type 0
IsShown arts art = (arts ≡ []) ⊎ (has_text art arts ≡ true)

normalize_art-IsShown : (got : Text) (arts : List Text) → IsShown arts (normalize_art got arts)
unfolding normalize_art has_text
normalize_art-IsShown got [] = inl refl
normalize_art-IsShown got (a ∷ arts) = inr (ground (arith, eq_text_refl a))

shown_art-IsShown :
    (ch : Character) (over : Bool) (art : Text) → IsShown ch.arts (shown_art ch over art)
unfolding shown_art
shown_art-IsShown ch over art = elim (Bool-cases (over && not (eq_text ch.game_over_art []))) [
  | inl e ↦ rw (e, shown_art) (normalize_art-IsShown ch.game_over_art ch.arts)
  | inr e ↦ rw (e, shown_art) (normalize_art-IsShown art ch.arts)
]

-- A turn of a dialogue: never both won and lost, lost for sure at the top of the scale unless it is
-- won, on the scale, with no options once it is over and at most four before, and with one of the
-- character's pictures if there are any.
abbrev pub IsFair : Character → TurnResult → Type 0
IsFair ch r =
    (r.achieved && r.game_over ≡ false)
    × ((r.game_over || r.achieved || ltb r.anger anger_lose_at) ≡ true)
    × (r.anger ≤ max_anger)
    × (length r.options ≤ (if r.achieved || r.game_over then 0 else option_count))
    × IsShown ch.arts r.art

abbrev pub OnTurn : (TurnResult → Type 0) → LlmError ⊎ TurnResult → Type 0
OnTurn P (inl e) = Unit {0}
OnTurn P (inr r) = P r

module _ (strings : Text → Option (List Text)) (object : Text → Option (List Field))
    (parse : Text → Option JudgeReply) (lower : Text → Text) where
  turn_of-IsFair :
      (ch : Character) (anger : ℕ) (done : List Text) (eng : Text → ℕ) (jr : JudgeReply)
      → IsFair ch (turn_of lower ch anger done eng jr)
  unfolding turn_of is_over options_while_playing
  turn_of-IsFair ch anger done eng jr = (
    ground arith,
    ground (arith, new_anger-bounded anger jr.anger),
    new_anger-bounded anger jr.anger,
    ground (arith, length-take option_count jr.options),
    shown_art-IsShown ch (is_over jr.game_over jr.achieved (new_anger anger jr.anger)) jr.art,
  )

  -- What holds of every turn that a readable reply makes holds of what is heard.
  pub hear-OnTurn :
      (P : TurnResult → Type 0) (ch : Character) (anger : ℕ) (done : List Text) (eng : Text → ℕ)
      (response : LlmResponse)
      → ((jr : JudgeReply) → P (turn_of lower ch anger done eng jr))
      → OnTurn P (hear strings object parse lower ch anger done eng response)
  unfolding hear
  hear-OnTurn P ch anger done eng broken f = tt
  hear-OnTurn P ch anger done eng (refused status) f = tt
  hear-OnTurn P ch anger done eng garbled f = tt
  hear-OnTurn P ch anger done eng (answered []) f = tt
  hear-OnTurn P ch anger done eng (answered (c ∷ cs)) f =
      elim (Option-cases (read_reply strings object parse c.content)) [
        | inl e ↦ rw (e, hear) tt
        | inr (jr, e) ↦ rw (e, hear) (f jr)
      ]

  pub judge-OnTurn :
      (P : TurnResult → Type 0)
      (ask : Character → List Exchange → Text → ℕ → List Text → (Text → ℕ) → LlmResponse)
      (ch : Character) (transcript : List Exchange) (choice : Text) (anger : ℤ) (themes : List Text)
      → ((jr : JudgeReply)
          → P (
              turn_of lower ch
                (clamp_anger anger)
                (themes_before lower ch transcript choice themes)
                (engagement lower ch.themes transcript choice)
                jr))
      → OnTurn P (judge strings object parse lower ask ch transcript choice anger themes)
  unfolding judge
  judge-OnTurn P ask ch transcript choice anger themes f =
      let eng : Text → ℕ = engagement lower ch.themes transcript choice in
      let done : List Text = themes_before lower ch transcript choice themes in
      hear-OnTurn P ch (clamp_anger anger) done eng
        (ask ch transcript choice (clamp_anger anger) done eng) f

  -- Whatever the provider answers, a judged turn is not both won and lost; it is lost if the anger is
  -- 90 or more and it is not won; the anger is at most 100; options are offered only while the dialogue
  -- goes on, four at most; and the picture is one of the character's, if there are any.
  pub judge-IsFair :
      (ask : Character → List Exchange → Text → ℕ → List Text → (Text → ℕ) → LlmResponse)
      (ch : Character) (transcript : List Exchange) (choice : Text) (anger : ℤ) (themes : List Text)
      → OnTurn (IsFair ch) (judge strings object parse lower ask ch transcript choice anger themes)
  judge-IsFair ask ch transcript choice anger themes =
      judge-OnTurn (IsFair ch) ask ch transcript choice anger themes (
        turn_of-IsFair ch (clamp_anger anger) (themes_before lower ch transcript choice themes)
          (engagement lower ch.themes transcript choice))
